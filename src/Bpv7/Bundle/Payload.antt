-- ===== src/Bpv7/Bundle/Payload.antt =====
-- Which number the payload block has, and where it stands, after any calls of AddExtensionBlock and
-- RemoveExtensionBlockByBlockNumber.
use mathlib.Core.List.{Nodup, Nodup-cons, Nodup-nil}
use native.Mathlib.Bridge.{le_prop}
use dtn.Prelude.{
  ℕ, zero, suc, ◌+◌, ◌≤◌, ◌<◌, ◌≡◌, ◌≢◌, refl, List, [], ◌∷◌, true, false, none, inl, inr, arith,
  All, Bool-cases, length, ◌==◌, ==_iff,
}
use mathlib.Core.List.Perm
use dtn.Prelude.Members.{All-perm}
use dtn.Bpv7.Block.{CanonicalBlock, payload_code, type_code}
use dtn.Bpv7.Primary.{PrimaryBlock}
use dtn.Bpv7.Bundle.{
  Bundle, contains, less_block, numbers, find_block, has_extension_block, free_number, next_number,
  must_new_bundle, sort_blocks, add_extension_block, remove_number, remove_extension_block,
}
use dtn.Bpv7.Bundle.Order.{IsSorted}
use dtn.Bpv7.Bundle.Numbers.{numbered, add_extension_block_correct, le-free_number}
use dtn.Bpv7.Bundle.Removal.{remove_number-IsSorted, All-remove_number}
use dtn.Bpv7.Bundle.Validity.{EndsInPayload, not_contains_iff}

-- Number 1 is that of the payload block.
abbrev pub HasItsNumber : CanonicalBlock → Type 0
HasItsNumber cb =
    (1 ≤ cb.block_number)
    × (cb.block_number ≡ 1 → type_code cb ≡ payload_code)
    × (type_code cb ≡ payload_code → cb.block_number ≡ 1)

HasItsNumber-prop : (cb : CanonicalBlock) → IsProp (HasItsNumber cb)
HasItsNumber-prop cb = hlevel le_prop

pub record IsWellNumbered (b : Bundle) : Type 0 where
  pub sorted : IsSorted b.canonical_blocks
  pub distinct : Nodup (numbers b.canonical_blocks)
  pub in_place : All HasItsNumber b.canonical_blocks

no_payload_one :
    (cbs : List CanonicalBlock)
    → All HasItsNumber cbs
    → find_block payload_code cbs ≡ none
    → contains (numbers cbs) 1 ≡ false
unfolding find_block contains
no_payload_one [] h e = refl
no_payload_one (cb ∷ cbs) h e = ground (arith, h.0.1, no_payload_one cbs h.1)

free_number-free :
    (fuel : ℕ) (taken : List ℕ) (n : ℕ)
    → 0 < fuel
    → contains taken n ≡ false
    → free_number fuel taken n ≡ n
unfolding free_number
free_number-free zero taken n h e = refl
free_number-free (suc fuel) taken n h e = rw e

next_number-payload :
    (block : CanonicalBlock) (cbs : List CanonicalBlock)
    → type_code block ≡ payload_code
    → contains (numbers cbs) 1 ≡ false
    → next_number block cbs ≡ 1
unfolding next_number
next_number-payload block cbs t e =
    rw ((==_iff _ payload_code).1 t, next_number)
      (free_number-free (length cbs + 1) (numbers cbs) 1 (omega arith) e)

next_number-other :
    (block : CanonicalBlock) (cbs : List CanonicalBlock)
    → type_code block ≢ payload_code
    → 2 ≤ next_number block cbs
unfolding next_number
next_number-other block cbs t = ground (arith, le-free_number (length cbs + 1) (numbers cbs) 2)

no_block_found :
    (b : Bundle)
    → has_extension_block b payload_code ≡ false
    → find_block payload_code b.canonical_blocks ≡ none
unfolding has_extension_block
no_block_found b h = ground arith

numbered-HasItsNumber :
    (b : Bundle) (block : CanonicalBlock)
    → IsWellNumbered b
    → (type_code block ≡ payload_code → find_block payload_code b.canonical_blocks ≡ none)
    → HasItsNumber (numbered block b.canonical_blocks)
unfolding type_code
numbered-HasItsNumber b block w h = elim (Bool-cases (type_code block == payload_code)) [
  | inl e ↦
      let t = (==_iff _ payload_code).0 e in
      let one = next_number-payload block _ t (no_payload_one _ w.in_place (h t)) in
      (omega arith, λ _. t, λ _. one)
  | inr e ↦
      let t : type_code block ≢ payload_code = ground arith in
      let two = next_number-other block b.canonical_blocks t in
      (omega arith, λ one. absurd (omega arith), λ t'. absurd (t t'))
]

-- AddExtensionBlock keeps the numbering, unless a second payload block is added.
add-IsWellNumbered :
    (b : Bundle) (block : CanonicalBlock)
    → IsWellNumbered b
    → (type_code block ≡ payload_code → has_extension_block b payload_code ≡ false)
    → IsWellNumbered (add_extension_block b block)
add-IsWellNumbered b block w h =
    let added = add_extension_block_correct b block in
    record {
      sorted = added.sorted;
      distinct = added.distinct w.distinct;
      in_place =
          All-perm HasItsNumber HasItsNumber-prop _ _ (Perm.symm added.blocks)
            (numbered-HasItsNumber b block w (λ t. no_block_found b (h t)), w.in_place);
    }

contains-remove_number :
    (n m : ℕ) (cbs : List CanonicalBlock)
    → contains (numbers cbs) m ≡ false
    → contains (numbers (remove_number n cbs)) m ≡ false
unfolding contains remove_number
contains-remove_number n m [] h = refl
contains-remove_number n m (cb ∷ cbs) h = ground (arith, contains-remove_number n m cbs)

remove_number-Nodup :
    (n : ℕ) (cbs : List CanonicalBlock)
    → Nodup (numbers cbs)
    → Nodup (numbers (remove_number n cbs))
unfolding remove_number
remove_number-Nodup n [] d = d
remove_number-Nodup n (cb ∷ cbs) d =
    let (unseen, d') = Nodup-cons.0 d in
    elim (Bool-cases (cb.block_number == n)) [
      | inl e ↦ rw e d'
      | inr e ↦ rw e (
          Nodup-cons.1 (
            (not_contains_iff _ _).0
                (contains-remove_number n cb.block_number cbs ((not_contains_iff _ _).1 unseen)),
            remove_number-Nodup n cbs d',
          ))
    ]

remove-IsWellNumbered :
    (b : Bundle) (n : ℕ) → IsWellNumbered b → IsWellNumbered (remove_extension_block b n)
unfolding remove_extension_block
remove-IsWellNumbered b n w = record {
  sorted = remove_number-IsSorted n _ w.sorted;
  distinct = remove_number-Nodup n _ w.distinct;
  in_place = All-remove_number HasItsNumber n _ w.in_place;
}

-- The bundles that are built from the empty one by adding and removing blocks.
pub data Built (primary : PrimaryBlock) : Bundle → Type 0 where
  start : Built primary (must_new_bundle primary [])
  add :
      {b : Bundle} (block : CanonicalBlock)
      → Built primary b
      → (type_code block ≡ payload_code → has_extension_block b payload_code ≡ false)
      → Built primary (add_extension_block b block)
  remove : {b : Bundle} (n : ℕ) → Built primary b → Built primary (remove_extension_block b n)

-- However blocks were added to a bundle without blocks and removed by their numbers, in any order but
-- with one payload block at a time: the numbers are distinct, the blocks sorted, and number 1 is
-- exactly that of the payload block.
pub Built-IsWellNumbered :
    {primary : PrimaryBlock} {b : Bundle} → Built primary b → IsWellNumbered b
unfolding must_new_bundle sort_blocks
Built-IsWellNumbered start = record { sorted = tt; distinct = Nodup-nil; in_place = tt }
Built-IsWellNumbered (add {b} block r h) = add-IsWellNumbered b block (Built-IsWellNumbered r) h
Built-IsWellNumbered (remove {b} n r) = remove-IsWellNumbered b n (Built-IsWellNumbered r)

payload_at_end :
    (cb : CanonicalBlock) (cbs : List CanonicalBlock)
    → IsSorted (cb ∷ cbs)
    → All HasItsNumber (cb ∷ cbs)
    → contains (numbers (cb ∷ cbs)) 1 ≡ true
    → EndsInPayload (cb ∷ cbs)
unfolding contains less_block
payload_at_end cb [] s h m = ([], cb, refl, h.0.1 (ground arith))
payload_at_end cb (c ∷ cs) s h m =
    let (front, p, e, t) = payload_at_end c cs s.1 h.1 (ground arith) in (cb ∷ front, p, cc, t)

payload_has_one :
    (cbs : List CanonicalBlock)
    → All HasItsNumber cbs
    → find_block payload_code cbs ≢ none
    → contains (numbers cbs) 1 ≡ true
unfolding find_block contains
payload_has_one [] h e = absurd (e refl)
payload_has_one (cb ∷ cbs) h e = ground (arith, h.0.2, payload_has_one cbs h.1)

ends_of_one :
    (cbs : List CanonicalBlock)
    → IsSorted cbs
    → All HasItsNumber cbs
    → contains (numbers cbs) 1 ≡ true
    → EndsInPayload cbs
unfolding contains
ends_of_one [] s h m = absurd (ground arith)
ends_of_one (cb ∷ cbs) s h m = payload_at_end cb cbs s h m

-- However blocks were added to a bundle without blocks and removed by their numbers, with one
-- payload block at a time: if the bundle has a payload block, then the last block is a payload
-- block.
pub Built-EndsInPayload :
    {primary : PrimaryBlock} {b : Bundle}
    → Built primary b
    → has_extension_block b payload_code ≡ true
    → EndsInPayload b.canonical_blocks
unfolding has_extension_block
Built-EndsInPayload {b} r h =
    let w = Built-IsWellNumbered r in
    ends_of_one b.canonical_blocks w.sorted w.in_place
      (payload_has_one b.canonical_blocks w.in_place (ground arith))
