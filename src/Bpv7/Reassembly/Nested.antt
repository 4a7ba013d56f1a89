-- ===== src/Bpv7/Reassembly/Nested.antt =====
-- A fragment that ends before an earlier one: prepareReassembly accepts it, and mergeFragmentPayload
-- slices beyond the end of its payload.
use dtn.Prelude.{
  ℕ, ◌+◌, ◌-◌, ◌%◌, ◌≤◌, ◌<◌, ◌≡◌, sym, ap, ◌∙◌, subst, List, ◌∷◌, true, false, ok, panic, arith,
  length, leb,
}
use dtn.Prelude.Int.{u64_mod}
use dtn.Bpv7.Bundle.{Bundle}
use dtn.Bpv7.Reassembly.{
  payload_data, check_gaps, prepare_reassembly, is_bundle_reassemblable, slice_from, merge_payload,
  reassemble_sorted, reassemble_fragments,
}
use dtn.Bpv7.Reassembly.Merge.{check_gaps-cons, ok_inj}
use dtn.Bpv7.Reassembly.Whole.{prepare_reassembly-eq-ok}

-- Behind an index, some fragment is the first that ends before the end of the one in front of it.
pub data Stalls : ℕ → List Bundle → Type 0 where
  here :
      {last : ℕ} {b : Bundle} {bs : List Bundle} (bytes : List ℕ)
      → payload_data b ≡ ok bytes
      → b.primary_block.fragment_offset + length bytes < last
      → last < u64_mod
      → Stalls last (b ∷ bs)
  later :
      {last : ℕ} {b : Bundle} {bs : List Bundle} (bytes : List ℕ)
      → payload_data b ≡ ok bytes
      → last ≤ b.primary_block.fragment_offset + length bytes
      → b.primary_block.fragment_offset + length bytes < u64_mod
      → Stalls (b.primary_block.fragment_offset + length bytes) bs
      → Stalls last (b ∷ bs)

merge_payload-Stalls :
    {last : ℕ} {bs : List Bundle} (end : ℕ)
    → Stalls last bs
    → check_gaps last bs ≡ ok end
    → merge_payload last bs ≡ panic
unfolding merge_payload slice_from
merge_payload-Stalls end (here {last} {b} {bs} bytes found short small) e =
    let (_, _, _, reached, _) = check_gaps-cons last b bs end e in
    let index : (last + u64_mod - b.primary_block.fragment_offset) % u64_mod
        ≡ last - b.primary_block.fragment_offset =
      omega arith in
    let outside : leb (last - b.primary_block.fragment_offset) (length bytes) ≡ false =
      ground arith in
    rw (found, index, outside)
merge_payload-Stalls end (later {last} {b} {bs} bytes found long small rest) e =
    let (bytes', found', _, reached, e') = check_gaps-cons last b bs end e in
    let same : bytes' ≡ bytes = ok_inj (sym found' ∙ found) in
    let next : (b.primary_block.fragment_offset + length bytes') % u64_mod
        ≡ b.primary_block.fragment_offset + length bytes =
      ap (λ xs. (b.primary_block.fragment_offset + length xs) % u64_mod) same ∙ omega arith in
    let ih = merge_payload-Stalls end rest (subst (λ t. check_gaps t bs ≡ ok end) next e') in
    let wrap : (b.primary_block.fragment_offset + length bytes) % u64_mod
        ≡ b.primary_block.fragment_offset + length bytes =
      omega arith in
    let index : (last + u64_mod - b.primary_block.fragment_offset) % u64_mod
        ≡ last - b.primary_block.fragment_offset =
      omega arith in
    let fits : leb (last - b.primary_block.fragment_offset) (length bytes) ≡ true = ground arith in
    rw (found, index, fits, wrap, ih)

-- If prepareReassembly accepts fragments and, once they are sorted by their offsets, one of them
-- ends before the one in front of it, then IsBundleReassemblable answers yes and
-- ReassembleFragments panics.
pub reassemble-nested :
    (now : ℕ) (bs : List Bundle) {sorted : List Bundle}
    → prepare_reassembly bs ≡ ok sorted
    → Stalls 0 sorted
    → (is_bundle_reassemblable bs ≡ ok true) × (reassemble_fragments now bs ≡ panic)
unfolding is_bundle_reassemblable reassemble_fragments
reassemble-nested now bs {sorted} accepted stalls =
    let (b, rest, shape, _, gaps) = prepare_reassembly-eq-ok bs accepted in
    let stuck : merge_payload 0 (b ∷ rest) ≡ panic =
      subst (λ s. merge_payload 0 s ≡ panic) shape (merge_payload-Stalls _ stalls gaps) in
    (
      rw (accepted, is_bundle_reassemblable),
      rw (accepted, reassemble_fragments)
          (rw (shape, reassemble_sorted) (rw (stuck, reassemble_sorted))),
    )
