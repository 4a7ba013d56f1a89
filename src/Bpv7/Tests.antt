-- ===== src/Bpv7/Tests.antt =====
-- Bundles, fragments and endpoints on which the theorems are applied.
use mathlib.Core.List.{Perm}
use dtn.Prelude.{
  ℕ, ◌+◌, ◌≡◌, ◌↔◌, refl, List, [], ◌∷◌, true, false, some, ok, panic, arith, All, length, take,
  drop, ◌≤◌,
}
use dtn.Prelude.Sort.{sort_by}
use dtn.Bpv7.Flags.{has}
use dtn.Bpv7.Endpoint.{EndpointId, ipn_endpoint}
use dtn.Bpv7.Block.{
  CanonicalBlock, payload, hop_count, new_hop_count, type_code, block_type_code,
  new_canonical_block, payload_code, check_canonical,
}
use dtn.Bpv7.Primary.{PrimaryBlock, check_primary}
use dtn.Bpv7.Primary.Rules.{PrimaryRules, check_primary_iff}
use dtn.Bpv7.Bundle.{
  Bundle, check_valid, must_new_bundle, add_extension_block, remove_extension_block, next_number,
  has_extension_block, sort_blocks, find_block, extension_block, free_number, contains, less_block,
  less, payload_block,
}
use dtn.Bpv7.Bundle.Order.{IsSorted}
use dtn.Bpv7.Bundle.Removal.{remove-add}
use dtn.Bpv7.Bundle.Numbers.{Adds, add_extension_block_correct}
use dtn.Bpv7.Bundle.Payload.{
  Built, start, add, remove, IsWellNumbered, Built-IsWellNumbered, Built-EndsInPayload,
}
use dtn.Bpv7.Bundle.Validity.{EndsInPayload, Rules, check_valid_iff}
use dtn.Bpv7.Reassembly.{
  prepare_reassembly, merge_payload, payload_data, assert_payload, check_gaps, less_offset,
  is_bundle_reassemblable, reassemble_fragments,
}
use dtn.Bpv7.Reassembly.Whole.{IsFragmentOf, prepare-merge}
use dtn.Bpv7.Reassembly.Nested.{here, later, reassemble-nested}

abbrev pub node : ℕ → EndpointId
node n = some (ipn_endpoint (record { node = n; service = 1 }))

-- A primary block of a fragment: its flags, offset and total length.
abbrev pub primary : ℕ → ℕ → ℕ → PrimaryBlock
primary flags offset total = record {
  version = 7;
  bundle_control_flags = flags;
  crc_type = 2;
  destination = node 1;
  source_node = node 2;
  report_to = node 2;
  creation_timestamp = record { dtn_time = 1000; sequence_number = 0 };
  lifetime = 5000;
  fragment_offset = offset;
  total_data_length = total;
  crc = [];
}

abbrev pub payload_of : List ℕ → CanonicalBlock
payload_of bytes = new_canonical_block 1 0 (payload bytes)

abbrev pub hops : CanonicalBlock
hops = new_canonical_block 0 0 (hop_count (new_hop_count 5))

abbrev fragment : ℕ → ℕ → List ℕ → Bundle
fragment offset total bytes = record {
  primary_block = primary 1 offset total;
  canonical_blocks = payload_of bytes ∷ [];
}

abbrev pub small_bundle : Bundle
small_bundle = must_new_bundle (primary 0 0 0) []

abbrev pub grown : Bundle
grown = add_extension_block (add_extension_block small_bundle (payload_of (1 ∷ 2 ∷ []))) hops

add_extension_block_correct_example : Adds grown hops (add_extension_block grown hops)
add_extension_block_correct_example = add_extension_block_correct grown hops

no_payload_yet : has_extension_block small_bundle payload_code ≡ false
unfolding must_new_bundle has_extension_block sort_blocks find_block extension_block
no_payload_yet = refl

grown-Built : Built (primary 0 0 0) grown
unfolding type_code new_canonical_block block_type_code
grown-Built = add hops (add (payload_of (1 ∷ 2 ∷ [])) start (λ e. no_payload_yet)) (λ e. absurd cc)

payload_there : has_extension_block grown payload_code ≡ true
unfolding must_new_bundle has_extension_block sort_blocks find_block extension_block
    add_extension_block next_number free_number contains type_code block_type_code less_block less
    sort_by new_canonical_block new_hop_count
payload_there = refl

Built-IsWellNumbered_example : IsWellNumbered (remove_extension_block grown 2)
Built-IsWellNumbered_example = Built-IsWellNumbered (remove 2 grown-Built)

Built-EndsInPayload_example : EndsInPayload grown.canonical_blocks
Built-EndsInPayload_example = Built-EndsInPayload grown-Built payload_there

remove-add_example :
    Perm
      (remove_extension_block
        (add_extension_block grown hops)
        (next_number hops grown.canonical_blocks)).canonical_blocks
      grown.canonical_blocks
    × IsSorted
        (remove_extension_block
          (add_extension_block grown hops)
          (next_number hops grown.canonical_blocks)).canonical_blocks
    × ((remove_extension_block
          (add_extension_block grown hops)
          (next_number hops grown.canonical_blocks)).primary_block
        ≡ grown.primary_block)
remove-add_example = remove-add grown hops (Built-IsWellNumbered grown-Built).distinct

abbrev whole : List ℕ
whole = 10 ∷ 11 ∷ 12 ∷ 13 ∷ []

abbrev first_part : Bundle
first_part = fragment 0 4 (10 ∷ 11 ∷ 12 ∷ [])

abbrev second_part : Bundle
second_part = fragment 2 4 (12 ∷ 13 ∷ [])

abbrev inner_part : Bundle
inner_part = fragment 1 4 (11 ∷ [])

payload_data_fragment :
    (offset total : ℕ) (bytes : List ℕ) → payload_data (fragment offset total bytes) ≡ ok bytes
unfolding payload_data payload_block extension_block find_block assert_payload type_code
    block_type_code new_canonical_block
payload_data_fragment offset total bytes = refl

overlapping_accepted :
    prepare_reassembly (second_part ∷ first_part ∷ []) ≡ ok (first_part ∷ second_part ∷ [])
unfolding payload_data payload_block extension_block find_block assert_payload type_code
    block_type_code new_canonical_block prepare_reassembly check_gaps sort_by less_offset has
overlapping_accepted = refl

nested_accepted :
    prepare_reassembly (first_part ∷ inner_part ∷ second_part ∷ [])
    ≡ ok (first_part ∷ inner_part ∷ second_part ∷ [])
unfolding payload_data payload_block extension_block find_block assert_payload type_code
    block_type_code new_canonical_block prepare_reassembly check_gaps sort_by less_offset has
nested_accepted = refl

fragment-IsFragmentOf :
    (offset : ℕ) (bytes : List ℕ)
    → offset + length bytes ≤ 4
    → bytes ≡ take (length bytes) (drop offset whole)
    → IsFragmentOf whole (fragment offset 4 bytes)
fragment-IsFragmentOf offset bytes within same = record {
  part = record {
    bytes = bytes;
    is_payload = payload_data_fragment offset 4 bytes;
    within = within;
    same = same;
  };
  total = refl;
}

prepare-merge_example : merge_payload 0 (first_part ∷ second_part ∷ []) ≡ ok whole
prepare-merge_example =
    prepare-merge whole (second_part ∷ first_part ∷ []) (omega arith)
      (
        fragment-IsFragmentOf 2 (12 ∷ 13 ∷ []) (omega arith) refl,
        (fragment-IsFragmentOf 0 (10 ∷ 11 ∷ 12 ∷ []) (omega arith) refl, tt),
      )
      overlapping_accepted
      (
        10 ∷ 11 ∷ 12 ∷ [],
        payload_data_fragment 0 4 _,
        omega arith,
        (12 ∷ 13 ∷ [], payload_data_fragment 2 4 _, omega arith, tt),
      )

reassemble-nested_example :
    (is_bundle_reassemblable (first_part ∷ inner_part ∷ second_part ∷ []) ≡ ok true)
    × (reassemble_fragments 0 (first_part ∷ inner_part ∷ second_part ∷ []) ≡ panic)
reassemble-nested_example =
    reassemble-nested 0 (first_part ∷ inner_part ∷ second_part ∷ []) nested_accepted (
      later (10 ∷ 11 ∷ 12 ∷ []) (payload_data_fragment 0 4 _) (omega arith) (omega arith)
        (here (11 ∷ []) (payload_data_fragment 1 4 _) (omega arith) (omega arith)))

check_primary_iff_example : (check_primary (primary 0 0 0) ≡ []) ↔ PrimaryRules (primary 0 0 0)
check_primary_iff_example = check_primary_iff (primary 0 0 0)

check_valid_iff_example : (check_valid 0 grown ≡ ok []) ↔ (
    (check_primary grown.primary_block ≡ [])
    × All (λ cb. check_canonical cb ≡ []) grown.canonical_blocks
    × Rules 0 grown grown.canonical_blocks)
check_valid_iff_example = check_valid_iff 0 grown
