-- ===== src/Prelude/Sort.antt =====
-- `sort.Sort` and `sort.Slice` of Go's standard library: every element is inserted behind those that
-- it is not less than. Go leaves the order of elements of which neither is less than the other open, and
-- may swap them in slices of more than 12 elements; this is one of the orders that it allows.
use mathlib.Core.List.{List, [], ◌∷◌, ◌++◌, Perm, perm_middle, append-nil, append_assoc}
use mathlib.Core.List.Perm
use mathlib.Core.Path.{◌≡◌, refl, sym, subst, ◌∙◌}
use mathlib.Core.Logic.{inl, inr}
use mathlib.Core.Bool.{Bool, true, false}
use dtn.Prelude.Tests.{if◌then◌else◌, Bool-cases}
use dtn.Prelude.Lists.{All}

module _ {ℓ} {A : Type ℓ} (less : A → A → Bool) where
  unfoldable pub insert_by : A → List A → List A
  insert_by b [] = b ∷ []
  insert_by b (c ∷ cs) = if less b c then b ∷ c ∷ cs else c ∷ insert_by b cs

  unfoldable pub sort_onto : List A → List A → List A
  sort_onto sorted [] = sorted
  sort_onto sorted (b ∷ bs) = sort_onto (insert_by b sorted) bs

  unfoldable pub sort_by : List A → List A
  unfolding sort_onto insert_by
  sort_by bs = sort_onto [] bs

  -- No element is less than one before it.
  abbrev pub IsSortedBy : List A → Type 0
  IsSortedBy [] = Unit
  IsSortedBy (c ∷ cs) = All (λ d. less d c ≡ false) cs × IsSortedBy cs

  insert_by-perm : (b : A) (cs : List A) → Perm (insert_by b cs) (b ∷ cs)
  unfolding insert_by
  insert_by-perm b [] = Perm.rfl
  insert_by-perm b (c ∷ cs) = elim (Bool-cases (less b c)) [
    | inl e ↦ rw e Perm.rfl
    | inr e ↦ rw e (Perm.trans (Perm.cons c (insert_by-perm b cs)) (Perm.swap b c cs))
  ]

  sort_onto-perm : (sorted bs : List A) → Perm (sort_onto sorted bs) (sorted ++ bs)
  unfolding sort_onto
  sort_onto-perm sorted [] = rw append-nil Perm.rfl
  sort_onto-perm sorted (b ∷ bs) = Perm.trans (sort_onto-perm (insert_by b sorted) bs) (
      Perm.trans (Perm.append_right bs (insert_by-perm b sorted))
        (Perm.symm (perm_middle sorted bs)))

  pub sort_by-perm : (bs : List A) → Perm (sort_by bs) bs
  unfolding sort_by
  sort_by-perm bs = sort_onto-perm [] bs

  All-insert_by {κ} :
      (P : A → Type κ) (b : A) (cs : List A) → P b → All P cs → All P (insert_by b cs)
  unfolding insert_by
  All-insert_by P b [] p h = (p, tt)
  All-insert_by P b (c ∷ cs) p h = elim (Bool-cases (less b c)) [
    | inl e ↦ rw e (p, h)
    | inr e ↦ rw e (h.0, All-insert_by P b cs p h.1)
  ]

module _ {ℓ κ} {A : Type ℓ} (less : A → A → Bool) (P : A → Type κ) where
  All-sort_onto : (sorted bs : List A) → All P sorted → All P bs → All P (sort_onto less sorted bs)
  unfolding sort_onto
  All-sort_onto sorted [] h k = h
  All-sort_onto sorted (b ∷ bs) h k =
      All-sort_onto (insert_by less b sorted) bs (All-insert_by less P b sorted k.0 h) k.1

  pub All-sort_by : (bs : List A) → All P bs → All P (sort_by less bs)
  unfolding sort_by
  All-sort_by bs h = All-sort_onto [] bs tt h

-- The laws of a strict weak order that the sort relies on.
pub record IsOrder {ℓ} {A : Type ℓ} (less : A → A → Bool) : Type ℓ where
  pub asymm : (a b : A) → less a b ≡ true → less b a ≡ false
  pub not_less_trans : (a b c : A) → less a b ≡ true → less c b ≡ false → less c a ≡ false

module _ {ℓ} {A : Type ℓ} (less : A → A → Bool) (order : IsOrder less) where
  All-not_less :
      (a b : A) (cs : List A)
      → less a b ≡ true
      → All (λ d. less d b ≡ false) cs
      → All (λ d. less d a ≡ false) cs
  All-not_less a b [] h all = tt
  All-not_less a b (c ∷ cs) h all =
      (order.not_less_trans a b c h all.0, All-not_less a b cs h all.1)

  insert_by-IsSortedBy :
      (b : A) (cs : List A) → IsSortedBy less cs → IsSortedBy less (insert_by less b cs)
  unfolding insert_by
  insert_by-IsSortedBy b [] s = (tt, tt)
  insert_by-IsSortedBy b (c ∷ cs) s = elim (Bool-cases (less b c)) [
    | inl e ↦ rw e ((order.asymm b c e, All-not_less b c cs e s.0), s)
    | inr e ↦ rw e (All-insert_by less _ b cs e s.0, insert_by-IsSortedBy b cs s.1)
  ]

  sort_onto-IsSortedBy :
      (sorted bs : List A) → IsSortedBy less sorted → IsSortedBy less (sort_onto less sorted bs)
  unfolding sort_onto
  sort_onto-IsSortedBy sorted [] s = s
  sort_onto-IsSortedBy sorted (b ∷ bs) s =
      sort_onto-IsSortedBy (insert_by less b sorted) bs (insert_by-IsSortedBy b sorted s)

  pub sort_by-IsSortedBy : (bs : List A) → IsSortedBy less (sort_by less bs)
  unfolding sort_by
  sort_by-IsSortedBy bs = sort_onto-IsSortedBy [] bs tt

-- A sorted list is its own sort.
module _ {ℓ} {A : Type ℓ} (less : A → A → Bool) where
  insert_by-last :
      (x : A) (cs : List A) → All (λ c. less x c ≡ false) cs → insert_by less x cs ≡ cs ++ x ∷ []
  unfolding insert_by
  insert_by-last x [] h = refl
  insert_by-last x (c ∷ cs) (hc, h) = rw (hc, insert_by-last x cs h) refl

  before_last :
      (cs : List A) (x : A) (bs : List A)
      → IsSortedBy less (cs ++ x ∷ bs)
      → All (λ c. less x c ≡ false) cs
  before_last [] x bs s = tt
  before_last (c ∷ cs) x bs (hc, s) = (middle cs hc, before_last cs x bs s)
    where
      middle : (ds : List A) → All (λ d. less d c ≡ false) (ds ++ x ∷ bs) → less x c ≡ false
      middle [] (h, _) = h
      middle (d ∷ ds) (_, h) = middle ds h

  sort_onto-sorted :
      (sorted bs : List A)
      → IsSortedBy less (sorted ++ bs)
      → sort_onto less sorted bs ≡ sorted ++ bs
  unfolding sort_onto
  sort_onto-sorted sorted [] s = sym (append-nil sorted)
  sort_onto-sorted sorted (b ∷ bs) s =
      let same = append_assoc sorted (b ∷ []) bs in
      rw (insert_by-last b sorted (before_last sorted b bs s))
        (sort_onto-sorted (sorted ++ b ∷ []) bs (subst (IsSortedBy less) (sym same) s) ∙ same)

  pub sort_by-sorted : (bs : List A) → IsSortedBy less bs → sort_by less bs ≡ bs
  unfolding sort_by
  sort_by-sorted bs s = sort_onto-sorted [] bs s
