-- ===== src/Bpv7/Bundle/Numbers.antt =====
-- Block numbers: Bundle.AddExtensionBlock and Bundle.RemoveExtensionBlockByBlockNumber.
use mathlib.Core.Logic.Or
use mathlib.Core.List.{
  Mem, Nodup, Nodup-cons, Perm, not-mem-nil, mem-cons, mem-cons_self, mem-cons_of_mem,
  perm_append_singleton,
}
use mathlib.Core.List.Perm
use dtn.Prelude.{
  ℕ, zero, suc, ◌+◌, ◌≤◌, ◌<◌, ◌≡◌, refl, subst, List, [], ◌∷◌, true, false, inl, inr, arith,
  length, Bool-cases, leb, ◌==◌, ==_iff, if◌then◌else◌,
}
use dtn.Bpv7.Block.{CanonicalBlock, payload_code, type_code}
use dtn.Bpv7.Bundle.{Bundle, contains, numbers, free_number, next_number, add_extension_block}
use dtn.Bpv7.Bundle.Order.{IsSorted, sort_blocks-perm, sort_blocks-IsSorted}

pub Mem_of_contains : (xs : List ℕ) (n : ℕ) → contains xs n ≡ true → Mem n xs
unfolding contains
Mem_of_contains [] n h = absurd (ground arith)
Mem_of_contains (x ∷ xs) n h = elim (Bool-cases (n == x)) [
  | inl e ↦ rw ((==_iff n x).0 e) mem-cons_self
  | inr e ↦ mem-cons_of_mem x (Mem_of_contains xs n (ground arith))
]

pub contains_of_Mem : (xs : List ℕ) (n : ℕ) → Mem n xs → contains xs n ≡ true
unfolding contains
contains_of_Mem [] n m = absurd (not-mem-nil m)
contains_of_Mem (x ∷ xs) n m =
    Or.elim (hlevel) (mem-cons.0 m) (λ e. ground arith)
      (λ r. ground (arith, contains_of_Mem xs n r))

-- How many numbers of the list are at least `n`.
count_from : ℕ → List ℕ → ℕ
count_from n [] = 0
count_from n (x ∷ xs) = if leb n x then suc (count_from n xs) else count_from n xs

count_from-le-length : (n : ℕ) (xs : List ℕ) → count_from n xs ≤ length xs
unfolding count_from
count_from-le-length n [] = omega arith
count_from-le-length n (x ∷ xs) = ground (arith, count_from-le-length n xs)

count_from_mono : (n : ℕ) (xs : List ℕ) → count_from (n + 1) xs ≤ count_from n xs
unfolding count_from
count_from_mono n [] = omega arith
count_from_mono n (x ∷ xs) = ground (arith, count_from_mono n xs)

count_from_taken :
    (n : ℕ) (xs : List ℕ) → contains xs n ≡ true → count_from (n + 1) xs < count_from n xs
unfolding count_from contains
count_from_taken n [] h = absurd (ground arith)
count_from_taken n (x ∷ xs) h = elim (Bool-cases (n == x)) [
  | inl e ↦ ground (arith, count_from_mono n xs)
  | inr e ↦ ground (arith, count_from_taken n xs)
]

free_number-fresh_below :
    (fuel : ℕ) (taken : List ℕ) (n : ℕ)
    → count_from n taken < fuel
    → contains taken (free_number fuel taken n) ≡ false
unfolding free_number
free_number-fresh_below zero taken n h = absurd (omega arith)
free_number-fresh_below (suc fuel) taken n h = elim (Bool-cases (contains taken n)) [
  | inl e ↦
      rw e (free_number-fresh_below fuel taken (n + 1) (omega (arith, count_from_taken n taken e)))
  | inr e ↦ rw e e
]

pub le-free_number : (fuel : ℕ) (taken : List ℕ) (n : ℕ) → n ≤ free_number fuel taken n
unfolding free_number
le-free_number zero taken n = omega arith
le-free_number (suc fuel) taken n = ground (arith, le-free_number fuel taken (n + 1))

free_number-le : (fuel : ℕ) (taken : List ℕ) (n : ℕ) → free_number fuel taken n ≤ n + fuel
unfolding free_number
free_number-le zero taken n = omega arith
free_number-le (suc fuel) taken n = ground (arith, free_number-le fuel taken (n + 1))

length-numbers : (cbs : List CanonicalBlock) → length (numbers cbs) ≡ length cbs
length-numbers [] = refl
length-numbers (cb ∷ cbs) = omega (arith, length-numbers cbs)

-- The number that AddExtensionBlock chooses is not taken.
pub next_number-fresh :
    (block : CanonicalBlock) (cbs : List CanonicalBlock)
    → contains (numbers cbs) (next_number block cbs) ≡ false
unfolding next_number
next_number-fresh block cbs =
    let start = if type_code block == payload_code then 1 else 2 in
    free_number-fresh_below (length cbs + 1) (numbers cbs) start
      (omega (arith, count_from-le-length start (numbers cbs), length-numbers cbs))

not-Mem_of_contains : (xs : List ℕ) (n : ℕ) → contains xs n ≡ false → ¬ Mem n xs
not-Mem_of_contains xs n h m = ground (arith, contains_of_Mem xs n m)

abbrev pub numbered : CanonicalBlock → List CanonicalBlock → CanonicalBlock
numbered block cbs = record block { block_number = next_number block cbs }

add_extension_block-perm :
    (b : Bundle) (block : CanonicalBlock)
    → Perm
        (add_extension_block b block).canonical_blocks
        (numbered block b.canonical_blocks ∷ b.canonical_blocks)
unfolding add_extension_block
add_extension_block-perm b block =
    Perm.trans (sort_blocks-perm _)
      (perm_append_singleton (numbered block b.canonical_blocks) b.canonical_blocks)

-- From where AddExtensionBlock counts: 1 is kept for the payload block.
abbrev pub first_number : CanonicalBlock → ℕ
first_number block = if type_code block == payload_code then 1 else 2

free_number_least :
    (fuel : ℕ) (taken : List ℕ) (n k : ℕ)
    → n ≤ k
    → k < free_number fuel taken n
    → contains taken k ≡ true
unfolding free_number
free_number_least zero taken n k h l = absurd (omega arith)
free_number_least (suc fuel) taken n k h l = elim (Bool-cases (contains taken n)) [
  | inl e ↦ elim (Bool-cases (n == k)) [
    | inl s ↦ subst (λ t. contains taken t ≡ true) ((==_iff n k).0 s) e
    | inr d ↦ free_number_least fuel taken (n + 1) k (ground arith) (rw e at l)
  ]
  | inr e ↦ absurd (let l' : k < n = rw e at l in omega arith)
]

free_number_start : (fuel : ℕ) (taken : List ℕ) (n : ℕ) → n ≤ free_number fuel taken n
unfolding free_number
free_number_start zero taken n = omega arith
free_number_start (suc fuel) taken n = elim (Bool-cases (contains taken n)) [
  | inl e ↦ let later = free_number_start fuel taken (n + 1) in rw e (omega (arith, later))
  | inr e ↦ rw e (omega arith)
]

-- What AddExtensionBlock makes of a bundle `b`.
pub record Adds (b : Bundle) (block : CanonicalBlock) (c : Bundle) : Type 0 where
  pub same_primary : c.primary_block ≡ b.primary_block
  pub blocks : Perm c.canonical_blocks (numbered block b.canonical_blocks ∷ b.canonical_blocks)
  pub sorted : IsSorted c.canonical_blocks
  pub distinct : Nodup (numbers b.canonical_blocks) → Nodup (numbers c.canonical_blocks)
  pub fresh : ¬ Mem (next_number block b.canonical_blocks) (numbers b.canonical_blocks)
  pub start : first_number block ≤ next_number block b.canonical_blocks
  pub least :
      (k : ℕ)
      → first_number block ≤ k
      → k < next_number block b.canonical_blocks
      → Mem k (numbers b.canonical_blocks)

-- AddExtensionBlock adds exactly the given block, under the least number that is free from 1 on for
-- a payload block and from 2 on for any other; it sorts, and keeps distinct numbers distinct.
pub add_extension_block_correct :
    (b : Bundle) (block : CanonicalBlock) → Adds b block (add_extension_block b block)
unfolding add_extension_block
add_extension_block_correct b block = record {
  same_primary = refl;
  blocks = added;
  sorted = sort_blocks-IsSorted _;
  distinct = λ d.
      Perm.nodup (Perm.symm (Perm.map (λ cb. cb.block_number) added)) (Nodup-cons.1 (unseen, d));
  fresh = unseen;
  start = unfold next_number in free_number_start _ _ _;
  least = λ k h l. Mem_of_contains _ k (unfold next_number in free_number_least _ _ _ k h l);
}
  where
    added :
        Perm
          (add_extension_block b block).canonical_blocks
          (numbered block b.canonical_blocks ∷ b.canonical_blocks)
    added = add_extension_block-perm b block

    unseen : ¬ Mem (next_number block b.canonical_blocks) (numbers b.canonical_blocks)
    unseen = not-Mem_of_contains _ _ (next_number-fresh block b.canonical_blocks)
