-- ===== src/Prelude/Members.antt =====
-- Membership and predicates on all elements, for properties that are propositions.
use mathlib.Core.Logic.Or
use mathlib.Core.List.{
  List, [], ◌∷◌, Mem, Perm, not-mem-nil, mem-cons, mem-cons_self, mem-cons_of_mem,
}
use mathlib.Core.List.Perm
use mathlib.Core.Path.{subst, sym}
use dtn.Prelude.Lists.{All}

module _ {ℓ κ} {A : Type ℓ} (P : A → Type κ) where
  pub All-of_Mem : (xs : List A) → ((x : A) → Mem x xs → P x) → All P xs
  All-of_Mem [] h = tt
  All-of_Mem (x ∷ xs) h = (h x mem-cons_self, All-of_Mem xs (λ y m. h y (mem-cons_of_mem x m)))

  module _ (prop : (x : A) → IsProp (P x)) where
    pub Mem_All : (xs : List A) → All P xs → (x : A) → Mem x xs → P x
    Mem_All [] h x m = absurd (not-mem-nil m)
    Mem_All (y ∷ xs) h x m =
        Or.elim (prop x) (mem-cons.0 m) (λ e. subst P (sym e) h.0) (Mem_All xs h.1 x)

    pub All-perm : (xs ys : List A) → Perm xs ys → All P xs → All P ys
    All-perm xs ys same h = All-of_Mem ys (λ x m. Mem_All xs h x ((Perm.mem_iff same).1 m))
