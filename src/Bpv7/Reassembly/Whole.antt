-- ===== src/Bpv7/Reassembly/Whole.antt =====
-- ReassembleFragments on fragments of one bundle: the payload that was fragmented.
use dtn.Prelude.{
  ℕ, ◌<◌, ◌≡◌, refl, sym, ap, ◌∙◌, subst, List, [], ◌∷◌, ok, >>=-eq-ok, arith, All, Bool-cases, inl,
  inr, length, take_all, ◌==◌, ==_iff,
}
use dtn.Prelude.Int.{u64_mod}
use dtn.Prelude.Sort.{sort_by, All-sort_by}
use dtn.Bpv7.Errors.{Result}
use dtn.Bpv7.Bundle.{Bundle}
use dtn.Bpv7.Reassembly.{less_offset, check_gaps, check_total, prepare_reassembly, merge_payload}
use dtn.Bpv7.Reassembly.Merge.{IsPartOf, Advances, merge_payload-between}

-- A fragment of a bundle with the payload `whole`.
pub record IsFragmentOf (whole : List ℕ) (b : Bundle) : Type 0 where
  pub part : IsPartOf whole b
  pub total : b.primary_block.total_data_length ≡ length whole

All-part :
    (whole : List ℕ) (bs : List Bundle) → All (IsFragmentOf whole) bs → All (IsPartOf whole) bs
All-part whole [] h = tt
All-part whole (b ∷ bs) h = (h.0.part, All-part whole bs h.1)

list_inj : {x y : List Bundle} → ◌≡◌ {A = Result (List Bundle)} (ok x) (ok y) → x ≡ y
list_inj h = cc

check_total-eq-ok :
    (bs : List Bundle) (last : ℕ) {sorted : List Bundle}
    → check_total bs last ≡ ok sorted
    → (b : Bundle) × (rest : List Bundle) × (bs ≡ b ∷ rest)
      × (sorted ≡ bs)
      × (b.primary_block.total_data_length ≡ last)
unfolding check_total
check_total-eq-ok [] last h = absurd (cc)
check_total-eq-ok (b ∷ bs) last h = elim (Bool-cases (b.primary_block.total_data_length == last)) [
  | inl e ↦ (b, bs, refl, list_inj (sym (rw e at h)), (==_iff _ last).0 e)
  | inr e ↦ absurd (ground arith)
]

-- What prepareReassembly has checked of the slice that it leaves.
pub prepare_reassembly-eq-ok :
    (bs : List Bundle) {sorted : List Bundle}
    → prepare_reassembly bs ≡ ok sorted
    → (b : Bundle) × (rest : List Bundle) × (sorted ≡ b ∷ rest)
      × (sorted ≡ sort_by less_offset bs)
      × (check_gaps 0 sorted ≡ ok b.primary_block.total_data_length)
unfolding prepare_reassembly
prepare_reassembly-eq-ok [] h = absurd (cc)
prepare_reassembly-eq-ok (b ∷ bs) h =
    let (last, gaps, h') = >>=-eq-ok (check_gaps 0 (sort_by less_offset (b ∷ bs))) _ h in
    let (first, rest, shape, same, total) =
      check_total-eq-ok (sort_by less_offset (b ∷ bs)) last h' in
    (
      first,
      rest,
      same ∙ shape,
      same,
      subst (λ s. check_gaps 0 s ≡ ok first.primary_block.total_data_length) (sym same)
          (gaps ∙ ap ok (sym total)),
    )

-- If prepareReassembly accepts fragments of one payload of less than 2^64 bytes, given in any order
-- and overlapping or not, and none of them ends before one that stands in front of it once they are
-- sorted by their offsets, then mergeFragmentPayload returns that payload.
pub prepare-merge :
    (whole : List ℕ) (bs : List Bundle) {sorted : List Bundle}
    → length whole < u64_mod
    → All (IsFragmentOf whole) bs
    → prepare_reassembly bs ≡ ok sorted
    → Advances 0 sorted
    → merge_payload 0 sorted ≡ ok whole
prepare-merge whole bs {sorted} small parts accepted adv =
    let (b, rest, shape, same, gaps) = prepare_reassembly-eq-ok bs accepted in
    let parts' = subst (All (IsFragmentOf whole)) (sym same) (All-sort_by less_offset _ bs parts) in
    let first = subst (All (IsFragmentOf whole)) shape parts' in
    let (merged, _, _) =
      merge_payload-between whole 0 sorted b.primary_block.total_data_length small (omega arith)
        (All-part whole sorted parts') adv gaps in
    merged ∙ ap ok (take_all _ whole (omega (arith, first.0.total)))
