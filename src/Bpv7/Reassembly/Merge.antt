-- ===== src/Bpv7/Reassembly/Merge.antt =====
-- The merged payload of fragments that prepareReassembly accepts.
use dtn.Prelude.{
  ℕ, ◌+◌, ◌-◌, ◌%◌, ◌≤◌, ◌<◌, ◌≡◌, sym, ap, ap₂, subst, ◌∙◌, List, [], ◌∷◌, ◌++◌, true, ok,
  >>=-eq-ok, arith, All, length, take, drop, drop-drop, drop-take, take-append-take, guard-eq-ok,
  leb, leb→le, guard,
}
use dtn.Prelude.Int.{u64_mod}
use dtn.Bpv7.Errors.{Result, not_fragment, gap}
use dtn.Bpv7.Flags.{has, is_fragment}
use dtn.Bpv7.Bundle.{Bundle}
use dtn.Bpv7.Reassembly.{payload_data, check_gaps, slice_from, merge_payload}

-- The fragment holds the bytes of `whole` from its offset on.
pub record IsPartOf (whole : List ℕ) (b : Bundle) : Type 0 where
  pub bytes : List ℕ
  pub is_payload : payload_data b ≡ ok bytes
  pub within : b.primary_block.fragment_offset + length bytes ≤ length whole
  pub same : bytes ≡ take (length bytes) (drop b.primary_block.fragment_offset whole)

-- No fragment ends before one that starts earlier, or starts behind it.
abbrev pub Advances : ℕ → List Bundle → Type 0
Advances last [] = Unit
Advances last (b ∷ bs) =
    (bytes : List ℕ) × (payload_data b ≡ ok bytes)
    × (last ≤ b.primary_block.fragment_offset + length bytes)
    × Advances (b.primary_block.fragment_offset + length bytes) bs

-- An accepted fragment is a fragment, starts no later than the last index, and has a payload.
pub check_gaps-cons :
    (last : ℕ) (b : Bundle) (bs : List Bundle) (end : ℕ)
    → check_gaps last (b ∷ bs) ≡ ok end
    → (bytes : List ℕ) × (payload_data b ≡ ok bytes)
      × (has b.primary_block.bundle_control_flags is_fragment ≡ true)
      × (b.primary_block.fragment_offset ≤ last)
      × (check_gaps ((b.primary_block.fragment_offset + length bytes) % u64_mod) bs ≡ ok end)
unfolding check_gaps
check_gaps-cons last b bs end h =
    let (_, flagged, h1) = >>=-eq-ok (guard _ not_fragment) _ h in
    let (_, reached, h2) = >>=-eq-ok (guard _ (gap b.primary_block.fragment_offset last)) _ h1 in
    let (bytes, found, h3) = >>=-eq-ok (payload_data b) _ h2 in
    (
      bytes,
      found,
      guard-eq-ok _ not_fragment flagged,
      leb→le _ last (guard-eq-ok _ (gap b.primary_block.fragment_offset last) reached),
      h3,
    )

pub merge_payload-cons :
    (last : ℕ) (b : Bundle) (bs : List Bundle) {bytes rest : List ℕ}
    → payload_data b ≡ ok bytes
    → b.primary_block.fragment_offset ≤ last
    → last ≤ b.primary_block.fragment_offset + length bytes
    → b.primary_block.fragment_offset + length bytes < u64_mod
    → merge_payload (b.primary_block.fragment_offset + length bytes) bs ≡ ok rest
    → merge_payload last (b ∷ bs) ≡ ok (drop (last - b.primary_block.fragment_offset) bytes ++ rest)
unfolding merge_payload slice_from
merge_payload-cons last b bs {bytes} {rest} found reached advances small ih =
    let index : (last + u64_mod - b.primary_block.fragment_offset) % u64_mod
        ≡ last - b.primary_block.fragment_offset =
      omega arith in
    let next : (b.primary_block.fragment_offset + length bytes) % u64_mod
        ≡ b.primary_block.fragment_offset + length bytes =
      omega arith in
    let fits : leb (last - b.primary_block.fragment_offset) (length bytes) ≡ true = ground arith in
    rw (found, index, next, fits, ih)

-- The bytes of `whole` from one index to another.
abbrev between : ℕ → ℕ → List ℕ → List ℕ
between i j whole = take (j - i) (drop i whole)

between-append :
    (i j k : ℕ) (whole : List ℕ)
    → i ≤ j
    → j ≤ k
    → between i j whole ++ between j k whole ≡ between i k whole
between-append i j k whole h l =
    let start : j ≡ i + (j - i) = omega arith in
    let size : j - i + (k - j) ≡ k - i = omega arith in
    ap (λ xs. between i j whole ++ take (k - j) xs)
      (ap (λ t. drop t whole) start ∙ sym (drop-drop i (j - i) whole))
    ∙ take-append-take (j - i) (k - j) (drop i whole)
    ∙ ap (λ t. take t (drop i whole)) size

part_of-drop :
    (whole : List ℕ) (last off len : ℕ) (bytes : List ℕ)
    → off ≤ last
    → bytes ≡ take len (drop off whole)
    → drop (last - off) bytes ≡ between last (off + len) whole
part_of-drop whole last off len bytes h same =
    let start : off + (last - off) ≡ last = omega arith in
    let size : len - (last - off) ≡ off + len - last = omega arith in
    ap (drop (last - off)) same
    ∙ drop-take (last - off) len (drop off whole)
    ∙ ap₂ take size (drop-drop off (last - off) whole ∙ ap (λ t. drop t whole) start)

pub ok_inj : {x y : List ℕ} → ◌≡◌ {A = Result (List ℕ)} (ok x) (ok y) → x ≡ y
ok_inj h = cc

pub merge_payload-between :
    (whole : List ℕ) (last : ℕ) (bs : List Bundle) (end : ℕ)
    → length whole < u64_mod
    → last ≤ length whole
    → All (IsPartOf whole) bs
    → Advances last bs
    → check_gaps last bs ≡ ok end
    → (merge_payload last bs ≡ ok (between last end whole)) × (last ≤ end) × (end ≤ length whole)
unfolding merge_payload check_gaps
merge_payload-between whole last [] end small h parts adv e =
    let same : last ≡ end = cc in
    let size : 0 ≡ end - last = omega arith in
    (ap (λ t. ok (take t (drop last whole))) size, omega arith, omega arith)
merge_payload-between whole last (b ∷ bs) end small h parts adv e =
    let (bytes, found, _, reached, rest) = check_gaps-cons last b bs end e in
    let (part, parts') = parts in
    let (bytes', found', advances, adv') = adv in
    let off = b.primary_block.fragment_offset in
    let same' : bytes' ≡ bytes = cc in
    let same : part.bytes ≡ bytes = ok_inj (sym part.is_payload ∙ found) in
    let len' : length bytes' ≡ length bytes = ap length same' in
    let len : length part.bytes ≡ length bytes = ap length same in
    let within : off + length bytes ≤ length whole = omega (arith, part.within) in
    let next : (off + length bytes) % u64_mod ≡ off + length bytes = omega arith in
    let adv'' = subst (λ l. Advances (off + l) bs) len' adv' in
    let (ih, lo, hi) =
      merge_payload-between whole (off + length bytes) bs end small within parts' adv''
        (subst (λ t. check_gaps t bs ≡ ok end) next rest) in
    let cut =
      part_of-drop whole last off (length bytes) bytes reached
        (subst (λ xs. xs ≡ take (length xs) (drop off whole)) same part.same) in
    (
      merge_payload-cons last b bs found reached (omega arith) (omega arith) ih
          ∙ ap ok (
              ap (λ xs. xs ++ between (off + length bytes) end whole) cut
              ∙ between-append last (off + length bytes) end whole (omega arith) lo),
      omega arith,
      hi,
    )
