-- ===== src/Bpv7/Builder/Tests.antt =====
-- A bundle from a builder, without a report-to endpoint.
use dtn.Bpv7.Flags.{check_flags, has}
use dtn.Bpv7.Time.{unix_milliseconds, dtn_time_instant, is_zero_time}
use dtn.Bpv7.Primary.{source_none_allowed, check_primary}
use dtn.Prelude.{ℕ, ◌≡◌, refl, [], ◌∷◌, none, some, ok}
use dtn.Bpv7.Endpoint.{EndpointId, ipn_endpoint, check_endpoint, eid_eq}
use dtn.Bpv7.Block.{
  payload, new_canonical_block, block_type_code, check_extension, check_canonical, type_code,
}
use dtn.Bpv7.Bundle.{
  Bundle, is_lifetime_exceeded, check_canonicals, must_new_bundle, check_unique, check_valid,
  sort_blocks, new_bundle, no_reports, last_type, contains, expiry,
}
use dtn.Bpv7.Builder.{
  BundleBuilder, eid, milliseconds, flags, builder, source, destination, creation_timestamp,
  lifetime, canonical_extension, build, parse_lifetime, parse_endpoint, add_numbered, reported,
}
use dtn.Bpv7.Builder.Built.{IsBuilt, build-IsBuilt}

abbrev node : ℕ → EndpointId
node n = some (ipn_endpoint (record { node = n; service = 1 }))

abbrev letter : BundleBuilder
letter =
    canonical_extension
      (lifetime (λ text. none)
        (creation_timestamp (destination (source builder (eid (node 1))) (eid (node 2))) 1000)
        (milliseconds 60000))
      (payload (1 ∷ 2 ∷ [])) (flags 1)

-- The built bundle; the bundle in the other cases does not matter.
built : Bundle
built = elim (build 946684801000000000 letter) [
  | ok b ↦ b
  | _ ↦ record { primary_block = letter.primary; canonical_blocks = letter.canonicals }
]

letter-built : build 946684801000000000 letter ≡ ok built
unfolding built build canonical_extension lifetime creation_timestamp destination source builder
    parse_endpoint parse_lifetime add_numbered type_code block_type_code new_canonical_block eid_eq
    new_bundle check_valid must_new_bundle sort_blocks is_lifetime_exceeded is_zero_time reported
    check_primary check_flags has check_endpoint source_none_allowed check_canonicals
    check_canonical check_extension no_reports check_unique contains last_type expiry
    dtn_time_instant unix_milliseconds
letter-built = refl

build-IsBuilt_example : IsBuilt 946684801000000000 built
build-IsBuilt_example = build-IsBuilt 946684801000000000 letter letter-built
