-- ===== src/Routing/Epidemic/Tests.antt =====
-- A node that floods, with a bundle in its store and two peers that nothing can be sent to.
use dtn.Prelude.{ℕ, ◌≡◌, refl, [], ◌∷◌, none, some, true, false, ok, if◌then◌else◌, bytes_eq}
use dtn.Prelude.Int.{pos}
use dtn.Bpv7.Flags.{has}
use dtn.Bpv7.Endpoint.{EndpointId, dtn_none, ipn_endpoint, eid_eq}
use dtn.Bpv7.Block.{type_code, block_type_code, new_canonical_block}
use dtn.Bpv7.Bundle.{Bundle, bundle_id, scrub, find_block, add_extension_block, sort_blocks}
use dtn.Bpv7.Codec.Tests.{tagged, fragment_primary}
use dtn.Bpv7.AdministrativeRecord.Tests.{flags}
use dtn.Storage.{BundleItem, Store, same_id, query_id, update}
use dtn.Bpv7.Uri.{same_node, authority, decimal_digits, endpoint_type_string, endpoint_string}
use dtn.Routing.Spray.{known, remove_first}
use dtn.Routing.Processing.Blocks.{set_previous_node, uncount_hop}
use dtn.Routing.IdKeeper.{new_id_keeper}
use dtn.Bpv7.Errors.{Result}
use dtn.Routing.Descriptor.{
  item_of, Constraints, no_constraints, Properties, no_properties, Descriptor, has_constraints,
  set_constraint, add_constraint, synced, dropped, sync, sync_item, sync_dropped,
}
use dtn.Routing.Descriptor.Sync.{IsStored}
use dtn.Routing.Core.{Core, World, sender_for_destination}
use dtn.Routing.Processing.{send_bundle, send_bundle_with, handle_received}
use dtn.Routing.Processing.Forwarding.{
  transmit_to_peers, choose, send_one, send_all, after_sending, bundle_contraindicated,
}
use dtn.Routing.Processing.Reports.{send_status_report, keep}
use dtn.Routing.Processing.State.{Node, in_store}
use dtn.Routing.Processing.Known.{received_again, handle_received-known}
use dtn.Routing.Processing.Nesting.{send_bundle_depth}
use dtn.Routing.Processing.Retention.{IsHeld, IsRetained, transmit_to_peers-IsRetained}
use dtn.Routing.Epidemic.{
  filter_clas, epidemic, sent_eids, updated, clas_for_item, clas_for_bundle, sender_for_bundle,
  failure_at, report_failure,
}
use dtn.Routing.Epidemic.Flooding.{Filtered, filter_clas-Filtered}
use dtn.Routing.Epidemic.Keeping.{flooding-KeepsPrimary, flooding-KeepsItem}

abbrev at : ℕ → EndpointId
at n = some (ipn_endpoint (record { node = n; service = 1 }))

abbrev parts_core : Core
parts_core = record {
  node_id = at 1;
  inspect_all_bundles = false;
  agents = [];
  listeners = [];
  receivers = [];
  senders = at 2 ∷ at 3 ∷ [];
  registered_types = [];
}

abbrev here : Node (Unit {0})
here = record {
  cbor = tagged;
  booleans = flags;
  alloc_limit = 16;
  path = λ id. 5;
  fails = λ k. false;
  parse = λ text. none;
  now = 1000;
  dtn_now = 1;
  core = parts_core;
  algorithm = epidemic (λ id. 5) (λ k. false) parts_core;
  sends = λ trace peer b. false;
}

abbrev received : Bundle
received = record { primary_block = fragment_primary; canonical_blocks = [] }

abbrev waiting : Constraints
waiting = record no_constraints { as_contraindicated = true }

abbrev kept : BundleItem Properties
kept = record {
  b_id = scrub (bundle_id received);
  pending = true;
  expires = pos 0;
  fragmented = true;
  parts = record { filename = 5; part_offset = 0; part_total = 4 } ∷ [];
  properties = record no_properties { constraints = some waiting };
}

abbrev before : World (Unit {0})
before = record {
  memory = record {
    store = record {
      items = λ id. if same_id id (scrub (bundle_id received)) then some kept else none;
      files = λ k. none;
    };
    state = tt;
  };
  keeper = new_id_keeper;
  trace = [];
}

kept-IsStored : IsStored here.path here.fails before.memory.store (bundle_id received) kept
unfolding query_id scrub bundle_id has same_id eid_eq bytes_eq endpoint_string endpoint_type_string
    decimal_digits
kept-IsStored = record { found = refl; own_id = refl }

no_report : Descriptor → Bundle → ℕ → ℕ → World (Unit {0}) → Result (World (Unit {0}))
no_report d b position reason w = ok w

handle_received-known_example :
    (s : Store Properties) × (handle_received here no_report (at 2) received before
      ≡ ok (in_store before s))
    × (item_of here.path here.fails s (scrub (bundle_id received))
        ≡ some (received_again 1000 waiting (at 2) kept))
    × (s.files ≡ before.memory.store.files)
unfolding has_constraints
handle_received-known_example =
    handle_received-known here no_report (at 2) received before kept waiting kept-IsStored refl refl

send_bundle_depth_example :
    send_bundle_with here
      (send_status_report here (send_bundle_with here (send_status_report here (λ b w. ok w))))
      received
      before
    ≡ send_bundle here 2 received before
send_bundle_depth_example =
    send_bundle_depth here (flooding-KeepsPrimary here) (λ b w. ok w) received before

filter_clas-Filtered_example :
    Filtered (at 2 ∷ []) (at 2 ∷ at 3 ∷ []) (filter_clas (at 2 ∷ []) (at 2 ∷ at 3 ∷ []))
filter_clas-Filtered_example = filter_clas-Filtered (at 2 ∷ []) (at 2 ∷ at 3 ∷ [])

abbrev described_here : Descriptor
described_here = record {
  id = bundle_id received;
  held_by = dtn_none;
  received_at = 900;
  pending = waiting;
  bndl = some received;
}

received-IsHeld : IsHeld here before.memory.store (bundle_id received) kept.parts
received-IsHeld = record { item = kept; stored = kept-IsStored; same_parts = refl }

-- The world after both transmissions failed.
unfoldable outcome : World (Unit {0})
outcome = elim (transmit_to_peers here no_report described_here received before) [
  | ok w ↦ w
  | _ ↦ before
]

outcome_lem : transmit_to_peers here no_report described_here received before ≡ ok outcome
unfolding outcome transmit_to_peers set_previous_node find_block type_code block_type_code
    add_extension_block sender_for_destination same_node choose send_all send_one uncount_hop
    after_sending bundle_contraindicated keep sync_dropped sender_for_bundle clas_for_bundle
    clas_for_item filter_clas sent_eids known eid_eq updated dropped update query_id scrub bundle_id
    has same_id sync sync_item has_constraints synced set_constraint add_constraint report_failure
    failure_at remove_first bytes_eq authority decimal_digits sort_blocks new_canonical_block
    endpoint_string endpoint_type_string
outcome_lem = refl

transmit_to_peers-IsRetained_example :
    IsRetained here outcome.memory.store (bundle_id received) kept.parts
transmit_to_peers-IsRetained_example =
    transmit_to_peers-IsRetained here no_report described_here received before kept.parts
      (flooding-KeepsItem here) (λ trace peer x. refl) refl received-IsHeld outcome_lem
