-- ===== src/Bpv7/Bundle/Removal.antt =====
-- Bundle.RemoveExtensionBlockByBlockNumber, alone and after Bundle.AddExtensionBlock.
use mathlib.Core.Logic.Or
use mathlib.Core.List.{
  Mem, Nodup, Nodup-cons, Perm, Perm-prop, mem-cons, mem-cons_self, mem-map_of_mem,
}
use mathlib.Core.List.Perm
use dtn.Prelude.{
  ℕ, ◌≡◌, refl, subst, List, [], ◌∷◌, true, false, inl, inr, arith, All, Bool-cases, ◌==◌, ==_iff,
}
use dtn.Bpv7.Block.{CanonicalBlock}
use dtn.Bpv7.Bundle.{
  Bundle, contains, numbers, next_number, add_extension_block, remove_number,
  remove_extension_block,
}
use dtn.Bpv7.Bundle.Order.{IsSorted}
use dtn.Bpv7.Bundle.Numbers.{contains_of_Mem, numbered, add_extension_block_correct}

-- A number that is there is the number of a block, which is the one that is taken out.
remove_number-perm :
    (n : ℕ) (cbs : List CanonicalBlock)
    → contains (numbers cbs) n ≡ true
    → (cb : CanonicalBlock) × (cb.block_number ≡ n) × Perm cbs (cb ∷ remove_number n cbs)
unfolding remove_number contains
remove_number-perm n [] h = absurd (ground arith)
remove_number-perm n (cb ∷ cbs) h = elim (Bool-cases (cb.block_number == n)) [
  | inl e ↦ (cb, (==_iff _ n).0 e, rw e Perm.rfl)
  | inr e ↦
      let (found, number, same) = remove_number-perm n cbs (ground arith) in
      (found, number, rw e (Perm.trans (Perm.cons cb same) (Perm.swap found cb _)))
]

pub remove_number-missing :
    (n : ℕ) (cbs : List CanonicalBlock)
    → contains (numbers cbs) n ≡ false
    → remove_number n cbs ≡ cbs
unfolding remove_number contains
remove_number-missing n [] h = refl
remove_number-missing n (cb ∷ cbs) h = ground (arith, remove_number-missing n cbs)

pub All-remove_number {κ} :
    (P : CanonicalBlock → Type κ) (n : ℕ) (cbs : List CanonicalBlock)
    → All P cbs
    → All P (remove_number n cbs)
unfolding remove_number
All-remove_number P n [] h = tt
All-remove_number P n (cb ∷ cbs) h = elim (Bool-cases (cb.block_number == n)) [
  | inl e ↦ rw e (h.1)
  | inr e ↦ rw e (h.0, All-remove_number P n cbs h.1)
]

pub remove_number-IsSorted :
    (n : ℕ) (cbs : List CanonicalBlock) → IsSorted cbs → IsSorted (remove_number n cbs)
unfolding remove_number
remove_number-IsSorted n [] s = tt
remove_number-IsSorted n (cb ∷ cbs) s = elim (Bool-cases (cb.block_number == n)) [
  | inl e ↦ rw e (s.1)
  | inr e ↦ rw e (All-remove_number _ n cbs s.0, remove_number-IsSorted n cbs s.1)
]

-- Among distinct numbers the block is determined by its number.
perm_of_same_number :
    (n : ℕ) (cb x : CanonicalBlock) (r ys : List CanonicalBlock)
    → cb.block_number ≡ n
    → x.block_number ≡ n
    → Nodup (numbers (x ∷ ys))
    → Perm (cb ∷ r) (x ∷ ys)
    → Perm r ys
perm_of_same_number n cb x r ys hc hx d same =
    Or.elim Perm-prop (mem-cons.0 ((Perm.mem_iff same).0 mem-cons_self))
      (λ e. Perm.cons_inv (subst (λ c. Perm (c ∷ r) (x ∷ ys)) e same))
      (λ m. absurd (
        (Nodup-cons.0 d).0
          (subst (λ k. Mem k (numbers ys)) (cc) (mem-map_of_mem (λ c. c.block_number) m))))

-- RemoveExtensionBlockByBlockNumber undoes AddExtensionBlock on a bundle whose block numbers are
-- distinct: it takes the added block out again, and leaves exactly the blocks that were there,
-- sorted.
pub remove-add :
    (b : Bundle) (block : CanonicalBlock)
    → Nodup (numbers b.canonical_blocks)
    → let c =
        remove_extension_block
          (add_extension_block b block)
          (next_number block b.canonical_blocks) in
      Perm c.canonical_blocks b.canonical_blocks
      × IsSorted c.canonical_blocks
      × (c.primary_block ≡ b.primary_block)
unfolding remove_extension_block
remove-add b block d =
    let added = add_extension_block_correct b block in
    let n = next_number block b.canonical_blocks in
    let d' = Nodup-cons.1 (added.fresh, d) in
    let here =
      contains_of_Mem (numbers (add_extension_block b block).canonical_blocks) n
        ((Perm.mem_iff (Perm.map (λ cb. cb.block_number) added.blocks)).1 mem-cons_self) in
    let (cb, number, same) =
      remove_number-perm n (add_extension_block b block).canonical_blocks here in
    (
      perm_of_same_number n cb (numbered block b.canonical_blocks) _ _ number refl d'
          (Perm.trans (Perm.symm same) added.blocks),
      remove_number-IsSorted n _ added.sorted,
      added.same_primary,
    )
