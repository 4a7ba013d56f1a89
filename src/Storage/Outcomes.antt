-- ===== src/Storage/Outcomes.antt =====
-- store.go: Push on all its ways.
use dtn.Prelude.{
  ℕ, ◌≡◌, refl, sym, ap, subst, List, [], ◌∷◌, ◌++◌, Option, none, some, Bool, true, false, not,
  ◌&&◌, ◌⊎◌, Run, ok, err, >>=-eq-ok, arith, inl, inr, Bool-cases, Option-cases, if-elim, ◌>>=◌,
}
use dtn.Bpv7.Primary.{has_fragmentation}
use dtn.Bpv7.Bundle.{Bundle, BundleId, bundle_id, scrub}
use dtn.Storage.{
  Error, write_failed, BundlePart, BundleItem, Store, new_bundle_part, known_fragment,
  new_bundle_item, query_id, store_bundle, push_at, push_known, push,
}
use dtn.Storage.Push.{store_inj}
use dtn.Storage.Pushed.{
  HasPart, known-HasPart, IsSound, Pushed, ignored, is_after, inserted-Pushed, appended-Pushed,
}

module _ {P : Type 0} (no_properties : P) (path : BundleId → ℕ) (fails : ℕ → Bool) where
  -- Why nothing is done.
  reason :
      (f g : Bool) (p : BundlePart) (ps : List BundlePart)
      → (f && g && not (known_fragment p ps)) ≡ false
      → (f ≡ false) ⊎ ((g ≡ false) ⊎ HasPart p ps)
  reason false g p ps h = inl refl
  reason true false p ps h = inr (inl refl)
  reason true true p ps h = inr (inr (known-HasPart p ps (ground (arith, h))))

  pub returned-Pushed :
      (s : Store P) (b : Bundle) {s' : Store P}
      → IsSound no_properties path fails s
      → push no_properties path fails s b ≡ ok s'
      → Pushed no_properties path fails s b s'
  unfolding push new_bundle_item query_id
  returned-Pushed s b {s'} sound h = elim (Option-cases (s.items (scrub (bundle_id b)))) [
    | inl fresh ↦
        let h' = subst (λ o. push_at no_properties path fails s b o ≡ ok s') fresh h in
        let (s1, written, e) =
          >>=-eq-ok (store_bundle no_properties path fails s (new_bundle_part path b) b) _ h' in
        subst (Pushed no_properties path fails s b)
          (is_after no_properties path fails s s1 b (new_bundle_item no_properties path fails b)
            written e)
          (inserted-Pushed no_properties path fails s b sound fresh)
    | inr (stored, found) ↦
        let h' = subst (λ o. push_at no_properties path fails s b o ≡ ok s') found h in
        elim (Bool-cases (
          has_fragmentation b.primary_block
          && stored.fragmented
          && not (known_fragment (new_bundle_part path b) stored.parts))) [
            | inl new ↦
                let (s1, written, e) =
                  >>=-eq-ok (store_bundle no_properties path fails s (new_bundle_part path b) b) _
                    (rw new at h') in
                subst (Pushed no_properties path fails s b)
                  (is_after no_properties path fails s s1 b
                    (record stored { parts = stored.parts ++ new_bundle_part path b ∷ [] }) written
                    e)
                  (appended-Pushed no_properties path fails s b stored sound found new)
            | inr old ↦
                let same = store_inj (rw old at h') in
                record {
                  outcome =
                      ignored stored found
                        (reason (has_fragmentation b.primary_block) stored.fragmented
                          (new_bundle_part path b) stored.parts old)
                        (sym same);
                  sound = subst (IsSound no_properties path fails) same sound;
                  others = λ id _. ap (λ (t : Store P). t.items id) (sym same);
                }
          ]
  ]

  -- Push has a result, or the file of the bundle cannot be written.
  Returns : Bundle → Run Error (Store P) → Type 0
  Returns b r =
      ((fails (path (bundle_id b)) ≡ true) × (r ≡ err (write_failed (path (bundle_id b)))))
      ⊎ ((s' : Store P) × (r ≡ ok s'))

  stored-Returns :
      (s : Store P) (b : Bundle) (f : Store P → Store P)
      → Returns b
          (store_bundle no_properties path fails s (new_bundle_part path b) b >>= λ s'. ok (f s'))
  unfolding Returns store_bundle new_bundle_part
  stored-Returns s b f = elim (Bool-cases (fails (path (bundle_id b)))) [
    | inl e ↦ rw e (inl (refl, refl))
    | inr e ↦ rw e (inr (_, refl))
  ]

  push_at-Returns :
      (s : Store P) (b : Bundle) (o : Option (BundleItem P))
      → Returns b (push_at no_properties path fails s b o)
  unfolding push_at push_known Returns
  push_at-Returns s b none = stored-Returns s b _
  push_at-Returns s b (some stored) =
      if-elim (Returns b)
        ((new_bundle_item no_properties path fails b).fragmented
          && stored.fragmented
          && not (known_fragment (new_bundle_part path b) stored.parts))
        _ _ (λ _. stored-Returns s b _) (λ _. inr (s, refl))

  -- Push of a bundle into a store, whose items are stored under their own IDs with a file for each part,
  -- either returns the error that the bundle's file cannot be written, or it returns a store with
  -- the following. The store is still so, the items of other IDs are as before, and there was one of
  -- three outcomes. There was no item of the ID: then there is one with the bundle as its only part,
  -- and the bundle's file. Or the bundle is a fragment whose offset and total length no part of a
  -- fragmented item has: then the item has its part as well, and the rest as before, and there is the
  -- bundle's file. Or the bundle is no fragment, or the item is that of a whole bundle, or it has such
  -- a part: then the store is as before.
  pub push-Pushed :
      (s : Store P) (b : Bundle)
      → IsSound no_properties path fails s
      → ((fails (path (bundle_id b)) ≡ true)
          × (push no_properties path fails s b ≡ err (write_failed (path (bundle_id b)))))
        ⊎ ((s' : Store P) × (push no_properties path fails s b ≡ ok s')
            × Pushed no_properties path fails s b s')
  unfolding push Returns
  push-Pushed s b sound =
      elim (push_at-Returns s b (query_id no_properties path fails s (bundle_id b))) [
        | inl failed ↦ inl failed
        | inr (s', done) ↦ inr (s', done, returned-Pushed s b sound done)
      ]
