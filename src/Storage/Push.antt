-- ===== src/Storage/Push.antt =====
-- store.go: a second Push, and what Push leaves in the store.
use dtn.Prelude.{
  ℕ, ◌≡◌, refl, sym, ap, subst, panic, List, [], ◌∷◌, ◌++◌, Option, some, Bool, true, false, not,
  ◌&&◌, Run, ok, err, >>=-eq-ok, arith, inl, inr, Bool-cases, Option-cases, bytes_eq_refl,
}
use dtn.Bpv7.Uri.{endpoint_string}
use dtn.Bpv7.Primary.{has_fragmentation}
use dtn.Bpv7.Bundle.{Bundle, BundleId, bundle_id, scrub}
use dtn.Storage.{
  Error, BundlePart, BundleItem, Store, same_id, new_bundle_part, known_fragment, new_bundle_item,
  query_id, put, store_bundle, push_at, push,
}

pub same_id_refl : (a : BundleId) → same_id a a ≡ true
unfolding same_id
same_id_refl a = ground (arith, bytes_eq_refl (endpoint_string a.source_node))

known_fragment-append :
    (p : BundlePart) (ps : List BundlePart) → known_fragment p (ps ++ p ∷ []) ≡ true
unfolding known_fragment
known_fragment-append p [] = ground arith
known_fragment-append p (q ∷ qs) = ground (arith, known_fragment-append p qs)

pub some_inj :
    {P : Type 0} {x y : BundleItem P} → ◌≡◌ {A = Option (BundleItem P)} (some x) (some y) → x ≡ y
some_inj h = cc

pub store_inj : {P : Type 0} {x y : Store P} → ◌≡◌ {A = Run Error (Store P)} (ok x) (ok y) → x ≡ y
store_inj h = cc

known_alone : (p : BundlePart) → known_fragment p (p ∷ []) ≡ true
unfolding known_fragment
known_alone p = ground arith

module _ {P : Type 0} (no_properties : P) (path : BundleId → ℕ) (fails : ℕ → Bool) where
  -- An item is stored under its own ID.
  abbrev pub IsKeyed : Store P → Type 0
  IsKeyed s = (id : BundleId) (bi : BundleItem P) → s.items id ≡ some bi → same_id id bi.b_id ≡ true

  -- Push has nothing to do for the bundle: there is an item of its ID, and the bundle or the item is no
  -- fragment, or the item has this part.
  pub record Has (s : Store P) (b : Bundle) : Type 0 where
    pub item : BundleItem P
    pub found : query_id no_properties path fails s (bundle_id b) ≡ some item
    pub part :
        (has_fragmentation b.primary_block
          && item.fragmented
          && not (known_fragment (new_bundle_part path b) item.parts))
        ≡ false

  put-IsKeyed :
      (s : Store P) (bi : BundleItem P)
      → IsKeyed s
      → IsKeyed (put no_properties path fails s bi.b_id bi)
  put-IsKeyed s bi keyed id found h = elim (Bool-cases (same_id id bi.b_id)) [
    | inl e ↦
        let same : bi ≡ found = some_inj (rw e at h) in subst (λ i. same_id id i.b_id ≡ true) same e
    | inr e ↦ keyed id found (rw e at h)
  ]

  store_bundle-items :
      (s : Store P) (p : BundlePart) (b : Bundle) {s' : Store P}
      → store_bundle no_properties path fails s p b ≡ ok s'
      → s'.items ≡ s.items
  unfolding store_bundle
  store_bundle-items s p b h = elim (Bool-cases (fails p.filename)) [
    | inl e ↦ absurd (ground arith)
    | inr e ↦ sym (ap items_of (rw e at h))
  ]
    where
      items_of : Run Error (Store P) → BundleId → Option (BundleItem P)
      items_of (ok t) = t.items
      items_of (err e) = s.items
      items_of panic = s.items

  -- Nothing is done for a bundle whose part is stored.
  push-of_Has : (s : Store P) (b : Bundle) → Has s b → push no_properties path fails s b ≡ ok s
  unfolding push new_bundle_item
  push-of_Has s b h = rw (h.found, push) (rw h.part refl)

  put-Has :
      (s : Store P) (b : Bundle) (bi : BundleItem P)
      → same_id (scrub (bundle_id b)) bi.b_id ≡ true
      → (has_fragmentation b.primary_block
          && bi.fragmented
          && not (known_fragment (new_bundle_part path b) bi.parts))
        ≡ false
      → Has (put no_properties path fails s bi.b_id bi) b
  unfolding query_id
  put-Has s b bi same part = record { item = bi; found = rw same refl; part = part }

  written_Has :
      (s s1 : Store P) (b : Bundle) (p : BundlePart) (bi : BundleItem P) {s' : Store P}
      → IsKeyed s
      → store_bundle no_properties path fails s p b ≡ ok s1
      → ◌≡◌ {A = Run Error (Store P)} (ok (put no_properties path fails s1 bi.b_id bi)) (ok s')
      → same_id (scrub (bundle_id b)) bi.b_id ≡ true
      → (has_fragmentation b.primary_block
          && bi.fragmented
          && not (known_fragment (new_bundle_part path b) bi.parts))
        ≡ false
      → Has s' b × IsKeyed s'
  written_Has s s1 b p bi keyed written e same part =
      let keyed1 : IsKeyed s1 =
        subst
          (λ items.
            (id : BundleId) (i : BundleItem P) → items id ≡ some i → same_id id i.b_id ≡ true)
          (sym (store_bundle-items s p b written)) keyed in
      subst (λ t. Has t b × IsKeyed t) (store_inj e)
        (put-Has s1 b bi same part, put-IsKeyed s1 bi keyed1)

  push-Has :
      (s : Store P) (b : Bundle) {s' : Store P}
      → IsKeyed s
      → push no_properties path fails s b ≡ ok s'
      → Has s' b × IsKeyed s'
  unfolding push new_bundle_item query_id
  push-Has s b {s'} keyed h = elim (Option-cases (s.items (scrub (bundle_id b)))) [
    | inl fresh ↦
        let h' = subst (λ o. push_at no_properties path fails s b o ≡ ok s') fresh h in
        let (s1, written, e) =
          >>=-eq-ok (store_bundle no_properties path fails s (new_bundle_part path b) b) _ h' in
        written_Has s s1 b (new_bundle_part path b) (new_bundle_item no_properties path fails b)
          keyed written e (same_id_refl _) (ground (arith, known_alone (new_bundle_part path b)))
    | inr (stored, found) ↦
        let h' = subst (λ o. push_at no_properties path fails s b o ≡ ok s') found h in
        let own = keyed (scrub (bundle_id b)) stored found in
        elim (Bool-cases (
          has_fragmentation b.primary_block
          && stored.fragmented
          && not (known_fragment (new_bundle_part path b) stored.parts))) [
            | inl new ↦
                let (s1, written, e) =
                  >>=-eq-ok (store_bundle no_properties path fails s (new_bundle_part path b) b) _
                    (rw new at h') in
                written_Has s s1 b (new_bundle_part path b)
                  (record stored { parts = stored.parts ++ new_bundle_part path b ∷ [] }) keyed
                  written e own
                  (ground (arith, known_fragment-append (new_bundle_part path b) stored.parts))
            | inr old ↦
                subst (λ t. Has t b × IsKeyed t) (store_inj (rw old at h'))
                  (record { item = stored; found = found; part = old }, keyed)
          ]
  ]

  -- If Push of a bundle into a store that keeps its items under their own IDs returns without an
  -- error, then a second Push of this bundle returns without an error and changes nothing.
  pub push-push :
      (s : Store P) (b : Bundle) {s' : Store P}
      → IsKeyed s
      → push no_properties path fails s b ≡ ok s'
      → push no_properties path fails s' b ≡ ok s'
  push-push s b {s'} keyed h = push-of_Has s' b (push-Has s b keyed h).0
