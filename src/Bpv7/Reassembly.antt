-- ===== src/Bpv7/Reassembly.antt =====
-- fragmentation.go, from prepareReassembly on: a bundle is put together from its fragments.
-- Offsets are unsigned 64-bit words.
pub mod Merge
pub mod Whole
pub mod Nested
use dtn.Prelude.{
  ℕ, ◌+◌, ◌-◌, ◌%◌, List, [], ◌∷◌, ◌++◌, Bool, true, false, not, ok, err, panic, ◌>>=◌, ◌>>◌, guard,
  length, drop, leb, ltb, ◌==◌, if◌then◌else◌, Run,
}
use dtn.Prelude.Bits.{and_not}
use dtn.Prelude.Int.{u64_mod}
use dtn.Prelude.Sort.{sort_by}
use dtn.Bpv7.Errors.{Error, Result, no_fragments, not_fragment, gap, wrong_total}
use dtn.Bpv7.Flags.{has, is_fragment}
use dtn.Bpv7.Block.{
  CanonicalBlock, payload, payload_code, type_code, new_canonical_block, set_crc_type,
}
use dtn.Bpv7.Primary.{PrimaryBlock}
use dtn.Bpv7.Bundle.{Bundle, payload_block, add_extension_block, check_valid}

-- The type assertion `Value.(*PayloadBlock)` panics at a block of another type.
unfoldable pub assert_payload : CanonicalBlock → Result (List ℕ)
assert_payload cb = elim cb.value [ payload bytes ↦ ok bytes | _ ↦ panic ]

unfoldable pub payload_data : Bundle → Result (List ℕ)
payload_data b = payload_block b >>= assert_payload

unfoldable pub less_offset : Bundle → Bundle → Bool
less_offset a b = ltb a.primary_block.fragment_offset b.primary_block.fragment_offset

-- The loop of prepareReassembly; its result is the last index.
unfoldable pub check_gaps : ℕ → List Bundle → Result ℕ
check_gaps last [] = ok last
check_gaps last (b ∷ bs) = do
  guard (has b.primary_block.bundle_control_flags is_fragment) not_fragment
  guard (leb b.primary_block.fragment_offset last) (gap b.primary_block.fragment_offset last)
  bytes ← payload_data b
  check_gaps ((b.primary_block.fragment_offset + length bytes) % u64_mod) bs

unfoldable pub check_total : List Bundle → ℕ → Result (List Bundle)
check_total [] last = err no_fragments
check_total (b ∷ bs) last =
    if b.primary_block.total_data_length == last
    then ok (b ∷ bs)
    else err (wrong_total last b.primary_block.total_data_length)

-- prepareReassembly sorts the slice that it is given: the result is the sorted one.
unfoldable pub prepare_reassembly : List Bundle → Result (List Bundle)
unfolding check_total
prepare_reassembly [] = err no_fragments
prepare_reassembly (b ∷ bs) = do
  let sorted = sort_by less_offset (b ∷ bs)
  last ← check_gaps 0 sorted
  check_total sorted last

unfoldable pub is_bundle_reassemblable : List Bundle → Result Bool
is_bundle_reassemblable bs = elim (prepare_reassembly bs) [
  | ok _ ↦ ok true
  | err _ ↦ ok false
  | panic ↦ panic
]

-- `bytes[i:]`. A negative index is a word above every length.
unfoldable pub slice_from : List ℕ → ℕ → Result (List ℕ)
slice_from bytes i = if leb i (length bytes) then ok (drop i bytes) else panic

-- mergeFragmentPayload, from a last index.
unfoldable pub merge_payload : ℕ → List Bundle → Result (List ℕ)
merge_payload last [] = ok []
merge_payload last (b ∷ bs) = do
  bytes ← payload_data b
  part ← slice_from bytes ((last + u64_mod - b.primary_block.fragment_offset) % u64_mod)
  rest ← merge_payload ((b.primary_block.fragment_offset + length bytes) % u64_mod) bs
  ok (part ++ rest)

unfoldable pub add_all_but_payload : Bundle → List CanonicalBlock → Bundle
add_all_but_payload b [] = b
add_all_but_payload b (cb ∷ cbs) =
    add_all_but_payload (if type_code cb == payload_code then b else add_extension_block b cb) cbs

unfoldable pub reassembled_primary : PrimaryBlock → PrimaryBlock
reassembled_primary pb = record pb {
  bundle_control_flags = and_not pb.bundle_control_flags is_fragment;
  fragment_offset = 0;
  total_data_length = 0;
  crc = [];
}

unfoldable pub with_payload : Bundle → CanonicalBlock → List ℕ → Bundle
with_payload b first bytes =
    add_extension_block b (
      set_crc_type first.crc_type (new_canonical_block 1 first.block_control_flags (payload bytes)))

reassemble_sorted : List Bundle → Result Bundle
reassemble_sorted [] = err no_fragments
reassemble_sorted (first ∷ bs) = do
  bytes ← merge_payload 0 (first ∷ bs)
  block ← payload_block first
  let empty : Bundle = record {
    primary_block = reassembled_primary first.primary_block;
    canonical_blocks = [];
  }
  ok (with_payload (add_all_but_payload empty first.canonical_blocks) block bytes)

-- The bundle, and the errors of its CheckValid, which are returned with it.
unfoldable pub reassemble_fragments : ℕ → List Bundle → Result (Bundle × List Error)
unfolding reassemble_sorted
reassemble_fragments now bs = do
  sorted ← prepare_reassembly bs
  b ← reassemble_sorted sorted
  errs ← check_valid now b
  ok (b, errs)
