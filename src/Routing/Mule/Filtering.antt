-- ===== src/Routing/Mule/Filtering.antt =====
-- algorithm_sensornetwork.go: the senders that stay.
use mathlib.Core.List.{reverse-cons}
use dtn.Prelude.{
  ◌≡◌, refl, sym, ap, subst, ◌∙◌, List, [], ◌∷◌, ◌++◌, reverse, Bool, true, not, ◌&&◌, ok,
  >>=-eq-ok, ok-injective, if◌then◌else◌, Bool-cases, inl, inr,
}
use dtn.Bpv7.Endpoint.{EndpointId}
use dtn.Bpv7.Uri.{same_node}
use dtn.Bpv7.Bundle.{Bundle}
use dtn.Routing.Descriptor.{Descriptor}
use dtn.Routing.Core.{Memory, Choice, Algorithm}
use dtn.Routing.Mule.{
  Left, is_empty, is_allowed, exclude_sender, exclude_senders, sender_for_bundle,
}

-- The endpoints that pass a test.
unfoldable pub filter_by : (EndpointId → Bool) → List EndpointId → List EndpointId
filter_by p [] = []
filter_by p (e ∷ es) = let rest = filter_by p es in if p e then e ∷ rest else rest

-- The same, gathered in front of a list from the first endpoint on.
gathered : (EndpointId → Bool) → List EndpointId → List EndpointId → List EndpointId
gathered p [] kept = kept
gathered p (e ∷ es) kept =
    let with_it = gathered p es (e ∷ kept) in
    let without = gathered p es kept in if p e then with_it else without

gathered-append :
    (p : EndpointId → Bool) (es : List EndpointId) (e : EndpointId) (kept : List EndpointId)
    → gathered p (es ++ e ∷ []) kept ≡ (if p e then e ∷ gathered p es kept else gathered p es kept)
unfolding gathered
gathered-append p [] e kept = refl
gathered-append p (f ∷ fs) e kept = elim (Bool-cases (p f)) [
  | inl h ↦ rw h (gathered-append p fs e (f ∷ kept))
  | inr h ↦ rw h (gathered-append p fs e kept)
]

gathered-reverse :
    (p : EndpointId → Bool) (es : List EndpointId) → gathered p (reverse es) [] ≡ filter_by p es
unfolding gathered filter_by
gathered-reverse p [] = refl
gathered-reverse p (e ∷ es) =
    ap (λ l. gathered p l []) (reverse-cons e es)
    ∙ (gathered-append p (reverse es) e []
        ∙ ap (λ l. if p e then e ∷ l else l) (gathered-reverse p es))

module _ {S : Type 0} (inner : Algorithm S) (is_sensor : EndpointId → Bool) where
  exclude_senders-gathered :
      (d : Descriptor) (css : List EndpointId) (l : Left S) {l' : Left S}
      → exclude_senders inner is_sensor d css l ≡ ok l'
      → l'.kept ≡ gathered (is_allowed inner is_sensor d) css l.kept
  unfolding exclude_senders gathered exclude_sender
  exclude_senders-gathered d [] l h = sym (ap (λ (l : Left S). l.kept) (ok-injective h))
  exclude_senders-gathered d (cs ∷ css) l {l'} h =
      elim (Bool-cases (is_allowed inner is_sensor d cs)) [
        | inl allowed ↦
            rw allowed
              (exclude_senders-gathered d css (record l { kept = cs ∷ l.kept }) (rw allowed at h))
        | inr excluded ↦ rw excluded (
            let (l1, left, rest) =
              >>=-eq-ok (exclude_sender inner is_sensor d cs l) _ (rw excluded at h) in
            let (x, failed, eq) =
              >>=-eq-ok (inner.report_failure l.left_memory _ cs l.left_bundle) _ left in
            exclude_senders-gathered d css l1 rest
            ∙ ap (λ (l : Left S). gathered (is_allowed inner is_sensor d) css l.kept)
                (sym (ok-injective eq)))
      ]

  allowed_lem :
      (d : Descriptor) (cs : EndpointId)
      → is_allowed inner is_sensor d cs ≡ (if is_sensor cs then same_node cs d.held_by else true)
  unfolding is_allowed
  allowed_lem d cs = elim (Bool-cases (is_sensor cs)) [ inl h ↦ rw h refl | inr h ↦ rw h refl ]

  -- What the mule's SenderForBundle gives, from what the other algorithm gives: a sensor stays if it is the
  -- node that received the bundle.
  pub record IsFiltered (d : Descriptor) (c c' : Choice S) : Type 0 where
    pub senders_filtered :
        c'.chosen ≡ filter_by (λ cs. if is_sensor cs then same_node cs d.held_by else true) c.chosen
    pub delete_kept : c'.delete_afterwards ≡ (c.delete_afterwards && not (is_empty c'.chosen))

  -- If SenderForBundle of a sensor mule returns, so has that of the other algorithm, and the senders are
  -- those of the other algorithm, in their order, but for the sensors that are not the node which
  -- received the bundle; the bundle is deleted afterwards if the other algorithm says so and a sender is left.
  pub sender_for_bundle-IsFiltered :
      (m : Memory S) (d : Descriptor) (b : Bundle) {c' : Choice S}
      → sender_for_bundle inner is_sensor m d b ≡ ok c'
      → (c : Choice S) × (inner.sender_for_bundle m d b ≡ ok c) × IsFiltered d c c'
  unfolding sender_for_bundle
  sender_for_bundle-IsFiltered m d b h =
      let (c, chosen, rest) = >>=-eq-ok (inner.sender_for_bundle m d b) _ h in
      let l0 : Left S = record { kept = []; left_memory = c.memory; left_bundle = c.bundle } in
      let (l, excluded, eq) =
        >>=-eq-ok (exclude_senders inner is_sensor d (reverse c.chosen) l0) _ rest in
      (
        c,
        chosen,
        subst (IsFiltered d c) (ok-injective eq) record {
          senders_filtered =
              exclude_senders-gathered d (reverse c.chosen) l0 excluded
              ∙ (gathered-reverse (is_allowed inner is_sensor d) c.chosen
                  ∙ ap (λ p. filter_by p c.chosen) (λ i cs. allowed_lem d cs i));
          delete_kept = refl;
        },
      )
