-- ===== src/Storage/Tests.antt =====
-- An empty store and two bundles to push into it.
use dtn.Prelude.{
  ℕ, ◌≡◌, refl, [], ◌∷◌, none, some, Bool, true, false, ok, err, ◌==◌, ◌⊎◌, if◌then◌else◌,
}
use dtn.Prelude.Int.{pos}
use dtn.Bpv7.Errors.{not_fragment}
use dtn.Bpv7.Flags.{has, check_flags, no_status_requests}
use dtn.Bpv7.Time.{is_zero_time, dtn_time_instant, unix_milliseconds}
use dtn.Bpv7.Endpoint.{EndpointId, ipn_endpoint, eid_eq, check_endpoint}
use dtn.Bpv7.Block.{payload, check_canonical, check_extension, type_code, block_type_code}
use dtn.Bpv7.Primary.{PrimaryBlock, has_fragmentation, check_primary, source_none_allowed}
use dtn.Bpv7.Bundle.{
  Bundle, BundleId, bundle_id, scrub, check_valid, check_canonicals, is_lifetime_exceeded, expiry,
  no_reports, check_unique, contains, last_type, check_report_flags, has_extension_block,
  extension_block, find_block,
}
use dtn.Storage.{
  write_failed, BundleItem, Store, new_bundle_part, new_bundle_item, query_id, store_bundle, put,
  push,
}
use dtn.Storage.Push.{IsKeyed, push-push}
use dtn.Storage.Pushed.{IsSound, Pushed}
use dtn.Storage.Outcomes.{returned-Pushed, push-Pushed}
use dtn.Storage.Load.{bundle_parts, is_complete, load, load-is_complete}

abbrev node : EndpointId
node = some (ipn_endpoint (record { node = 1; service = 1 }))

abbrev primary : ℕ → PrimaryBlock
primary flags = record {
  version = 7;
  bundle_control_flags = flags;
  crc_type = 2;
  destination = node;
  source_node = node;
  report_to = node;
  creation_timestamp = record { dtn_time = 1000; sequence_number = 0 };
  lifetime = 5000;
  fragment_offset = 0;
  total_data_length = 2;
  crc = [];
}

abbrev bundle : ℕ → Bundle
bundle flags = record {
  primary_block = primary flags;
  canonical_blocks =
      record {
        block_number = 1;
        block_control_flags = 0;
        crc_type = 0;
        crc = [];
        value = payload (1 ∷ 2 ∷ []);
      }
      ∷ [];
}

abbrev empty_store : Store Bool
empty_store = record { items = λ id. none; files = λ k. none }

abbrev one_path : BundleId → ℕ
one_path id = 5

abbrev never : ℕ → Bool
never k = false

empty-IsKeyed : IsKeyed false one_path never empty_store
empty-IsKeyed id bi h = absurd cc

abbrev pushed : Store Bool
pushed =
    put false one_path never
      (record empty_store { files = λ k. if k == 5 then some (bundle 1) else none })
      (scrub (bundle_id (bundle 1))) (new_bundle_item false one_path never (bundle 1))

pushed_lem : push false one_path never empty_store (bundle 1) ≡ ok pushed
unfolding push query_id store_bundle new_bundle_part new_bundle_item
pushed_lem = refl

empty-IsSound : IsSound false one_path never empty_store
empty-IsSound = record { keyed = empty-IsKeyed; backed = λ id bi h. absurd cc }

pushed-IsSound : IsSound false one_path never pushed
pushed-IsSound =
    (returned-Pushed false one_path never empty_store (bundle 1) empty-IsSound pushed_lem).sound

-- Another fragment of the bundle.
abbrev second : Bundle
second = record (bundle 1) { primary_block = record (primary 1) { fragment_offset = 1 } }

push-Pushed_example :
    ((never (one_path (bundle_id second)) ≡ true)
      × (push false one_path never pushed second
          ≡ err (write_failed (one_path (bundle_id second)))))
    ⊎ ((s' : Store Bool) × (push false one_path never pushed second ≡ ok s')
        × Pushed false one_path never pushed second s')
push-Pushed_example = push-Pushed false one_path never pushed second pushed-IsSound

push-push_example : push false one_path never pushed (bundle 1) ≡ ok pushed
push-push_example = push-push false one_path never empty_store (bundle 1) empty-IsKeyed pushed_lem

abbrev whole_item : BundleItem Bool
whole_item = record {
  b_id = scrub (bundle_id (bundle 0));
  pending = false;
  expires = pos 0;
  fragmented = false;
  parts = record { filename = 5; part_offset = 0; part_total = 0 } ∷ [];
  properties = false;
}

abbrev whole_store : Store Bool
whole_store = record { items = λ id. none; files = λ k. some (bundle 0) }

whole_parts : bundle_parts 0 whole_store.files whole_item.parts ≡ ok (bundle 0 ∷ [])
unfolding bundle_parts check_valid check_primary check_flags check_endpoint source_none_allowed
    eid_eq has check_canonicals check_canonical check_extension type_code block_type_code
    is_zero_time is_lifetime_exceeded expiry dtn_time_instant unix_milliseconds no_reports
    check_unique contains last_type check_report_flags no_status_requests has_extension_block
    extension_block find_block
whole_parts = refl

load-is_complete_example :
    (is_complete 0 whole_store whole_item ≡ ok true)
    × (load 0 whole_store whole_item ≡ err not_fragment)
unfolding has_fragmentation has
load-is_complete_example =
    load-is_complete 0 whole_store whole_item (bundle 0) refl whole_parts refl
