-- ===== src/Storage/Pushed.antt =====
-- store.go: what Push does to a store.
use dtn.Prelude.{
  ℕ, ◌≡◌, refl, sym, ap, subst, ◌∙◌, List, [], ◌∷◌, ◌++◌, none, some, Bool, true, false, not, ◌&&◌,
  ◌⊎◌, Run, ok, arith, inl, inr, Bool-cases, bytes_eq, bytes_eq_refl, bytes_eq_sound, All,
  All-append, ◌==◌, if◌then◌else◌,
}
use dtn.Bpv7.Uri.{endpoint_string}
use dtn.Bpv7.Primary.{has_fragmentation}
use dtn.Bpv7.Bundle.{Bundle, BundleId, bundle_id, scrub}
use dtn.Storage.{
  Error, BundlePart, BundleItem, Store, same_id, new_bundle_part, known_fragment, new_bundle_item,
  query_id, put, store_bundle,
}
use dtn.Storage.Push.{same_id_refl, store_inj, some_inj}

-- One of the parts has the offset and the total length of another part.
pub HasPart : BundlePart → List BundlePart → Type 0
HasPart p [] = ⊥
HasPart p (q ∷ qs) =
    ((q.part_offset ≡ p.part_offset) × (q.part_total ≡ p.part_total)) ⊎ HasPart p qs

pub known-HasPart :
    (p : BundlePart) (ps : List BundlePart) → known_fragment p ps ≡ true → HasPart p ps
unfolding known_fragment HasPart
known-HasPart p [] h = cc
known-HasPart p (q ∷ qs) h =
    elim (Bool-cases (q.part_offset == p.part_offset && q.part_total == p.part_total)) [
      | inl e ↦ inl (ground (arith, e), ground (arith, e))
      | inr e ↦ inr (known-HasPart p qs (rw e at h))
    ]

unknown-HasPart :
    (p : BundlePart) (ps : List BundlePart) → known_fragment p ps ≡ false → ¬ HasPart p ps
unfolding known_fragment HasPart
unknown-HasPart p [] h m = m
unknown-HasPart p (q ∷ qs) h (inl (offset, total)) = absurd (ground (arith, h, offset, total))
unknown-HasPart p (q ∷ qs) h (inr m) =
    let rest : known_fragment p qs ≡ false = ground (arith, h) in unknown-HasPart p qs rest m

same_id_through : (a b c : BundleId) → same_id a c ≡ true → same_id b c ≡ true → same_id a b ≡ true
unfolding same_id
same_id_through a b c h k =
    let first =
      bytes_eq_sound (endpoint_string a.source_node) (endpoint_string c.source_node)
        (ground (arith, h)) in
    let second =
      bytes_eq_sound (endpoint_string b.source_node) (endpoint_string c.source_node)
        (ground (arith, k)) in
    let strings : bytes_eq (endpoint_string a.source_node) (endpoint_string b.source_node) ≡ true =
      subst (λ t. bytes_eq (endpoint_string a.source_node) t ≡ true) (first ∙ sym second)
        (bytes_eq_refl (endpoint_string a.source_node)) in
    ground (arith, h, k, strings)

module _ {P : Type 0} (no_properties : P) (path : BundleId → ℕ) (fails : ℕ → Bool) where
  -- The part has a file.
  pub IsBacked : Store P → BundlePart → Type 0
  IsBacked s p = (b : Bundle) × (s.files p.filename ≡ some b)

  -- Every item is stored under its own ID, and all its parts have files.
  pub record IsSound (s : Store P) : Type 0 where
    pub keyed :
        (id : BundleId) (bi : BundleItem P) → s.items id ≡ some bi → same_id id bi.b_id ≡ true
    pub backed :
        (id : BundleId) (bi : BundleItem P) → s.items id ≡ some bi → All (IsBacked s) bi.parts

  -- What Push of a bundle has done to a store.
  pub data Outcome (s : Store P) (b : Bundle) (s' : Store P) : Type 0 where
    inserted :
        (bi : BundleItem P)
        → query_id no_properties path fails s (bundle_id b) ≡ none
        → query_id no_properties path fails s' (bundle_id b) ≡ some bi
        → bi.fragmented ≡ has_fragmentation b.primary_block
        → bi.parts ≡ new_bundle_part path b ∷ []
        → s'.files (path (bundle_id b)) ≡ some b
        → Outcome s b s'
    appended :
        (stored : BundleItem P)
        → query_id no_properties path fails s (bundle_id b) ≡ some stored
        → has_fragmentation b.primary_block ≡ true
        → stored.fragmented ≡ true
        → ¬ HasPart (new_bundle_part path b) stored.parts
        → query_id no_properties path fails s' (bundle_id b)
          ≡ some (record stored { parts = stored.parts ++ new_bundle_part path b ∷ [] })
        → s'.files (path (bundle_id b)) ≡ some b
        → Outcome s b s'
    ignored :
        (stored : BundleItem P)
        → query_id no_properties path fails s (bundle_id b) ≡ some stored
        → (has_fragmentation b.primary_block ≡ false)
          ⊎ ((stored.fragmented ≡ false) ⊎ HasPart (new_bundle_part path b) stored.parts)
        → s' ≡ s
        → Outcome s b s'

  pub record Pushed (s : Store P) (b : Bundle) (s' : Store P) : Type 0 where
    pub outcome : Outcome s b s'
    pub sound : IsSound s'
    pub others :
        (id : BundleId) → same_id id (scrub (bundle_id b)) ≡ false → s'.items id ≡ s.items id

  -- The store after a file was written.
  abbrev with_file : Store P → Bundle → Store P
  with_file s b = record s { files = λ k. if k == path (bundle_id b) then some b else s.files k }

  file_written :
      (s : Store P) (b : Bundle) {s' : Store P}
      → store_bundle no_properties path fails s (new_bundle_part path b) b ≡ ok s'
      → s' ≡ with_file s b
  unfolding store_bundle new_bundle_part
  file_written s b h = elim (Bool-cases (fails (path (bundle_id b)))) [
    | inl e ↦ absurd (ground arith)
    | inr e ↦ sym (store_inj (rw e at h))
  ]

  own_file : (s : Store P) (b : Bundle) → (with_file s b).files (path (bundle_id b)) ≡ some b
  own_file s b =
      let same : (path (bundle_id b) == path (bundle_id b)) ≡ true = ground arith in rw same refl

  with_file-IsBacked :
      (s : Store P) (b : Bundle) (p : BundlePart) → IsBacked s p → IsBacked (with_file s b) p
  unfolding IsBacked
  with_file-IsBacked s b p (c, h) = elim (Bool-cases (p.filename == path (bundle_id b))) [
    | inl e ↦ (b, rw e refl)
    | inr e ↦ (c, rw e h)
  ]

  All-IsBacked :
      (s : Store P) (b : Bundle) (ps : List BundlePart)
      → All (IsBacked s) ps
      → All (IsBacked (with_file s b)) ps
  All-IsBacked s b [] h = tt
  All-IsBacked s b (p ∷ ps) (hp, h) = (with_file-IsBacked s b p hp, All-IsBacked s b ps h)

  new_part-IsBacked : (s : Store P) (b : Bundle) → IsBacked (with_file s b) (new_bundle_part path b)
  unfolding IsBacked new_bundle_part
  new_part-IsBacked s b = (b, own_file s b)

  -- The store with the file of a bundle and the item of its ID.
  abbrev after : Store P → Bundle → BundleItem P → Store P
  after s b bi = put no_properties path fails (with_file s b) bi.b_id bi

  after-IsSound :
      (s : Store P) (b : Bundle) (bi : BundleItem P)
      → IsSound s
      → All (IsBacked (with_file s b)) bi.parts
      → IsSound (after s b bi)
  unfolding IsBacked
  after-IsSound s b bi h parts = record {
    keyed = λ id found q. elim (Bool-cases (same_id id bi.b_id)) [
      | inl e ↦
          let same : bi ≡ found = some_inj (rw e at q) in
          subst (λ i. same_id id i.b_id ≡ true) same e
      | inr e ↦ h.keyed id found (rw e at q)
    ];
    backed = λ id found q. elim (Bool-cases (same_id id bi.b_id)) [
      | inl e ↦
          let same : bi ≡ found = some_inj (rw e at q) in
          subst (λ (i : BundleItem P). All (IsBacked (with_file s b)) i.parts) same parts
      | inr e ↦ All-IsBacked s b found.parts (h.backed id found (rw e at q))
    ];
  }

  after-others :
      (s : Store P) (b : Bundle) (bi : BundleItem P)
      → same_id (scrub (bundle_id b)) bi.b_id ≡ true
      → (id : BundleId) → same_id id (scrub (bundle_id b)) ≡ false
      → (after s b bi).items id ≡ s.items id
  after-others s b bi own id other = elim (Bool-cases (same_id id bi.b_id)) [
    | inl e ↦ absurd (
        let same = same_id_through id (scrub (bundle_id b)) bi.b_id e own in
        ground (arith, same, other))
    | inr e ↦ rw e refl
  ]

  after_found :
      (s : Store P) (b : Bundle) (bi : BundleItem P)
      → same_id (scrub (bundle_id b)) bi.b_id ≡ true
      → query_id no_properties path fails (after s b bi) (bundle_id b) ≡ some bi
  unfolding query_id
  after_found s b bi own = rw own refl

  pub is_after :
      (s s1 : Store P) (b : Bundle) (bi : BundleItem P) {s' : Store P}
      → store_bundle no_properties path fails s (new_bundle_part path b) b ≡ ok s1
      → ◌≡◌ {A = Run Error (Store P)} (ok (put no_properties path fails s1 bi.b_id bi)) (ok s')
      → after s b bi ≡ s'
  is_after s s1 b bi written e =
      ap (λ t. put no_properties path fails t bi.b_id bi) (sym (file_written s b written))
      ∙ store_inj e

  pub inserted-Pushed :
      (s : Store P) (b : Bundle)
      → IsSound s
      → query_id no_properties path fails s (bundle_id b) ≡ none
      → Pushed s b (after s b (new_bundle_item no_properties path fails b))
  unfolding new_bundle_item
  inserted-Pushed s b sound fresh =
      let bi = new_bundle_item no_properties path fails b in
      let own = same_id_refl (scrub (bundle_id b)) in
      record {
        outcome = inserted bi fresh (after_found s b bi own) refl refl (own_file s b);
        sound = after-IsSound s b bi sound (new_part-IsBacked s b, tt);
        others = after-others s b bi own;
      }

  pub appended-Pushed :
      (s : Store P) (b : Bundle) (stored : BundleItem P)
      → IsSound s
      → query_id no_properties path fails s (bundle_id b) ≡ some stored
      → (has_fragmentation b.primary_block
          && stored.fragmented
          && not (known_fragment (new_bundle_part path b) stored.parts))
        ≡ true
      → Pushed s b
          (after s b (record stored { parts = stored.parts ++ new_bundle_part path b ∷ [] }))
  unfolding query_id
  appended-Pushed s b stored sound found new =
      let part = new_bundle_part path b in
      let bi : BundleItem P = record stored { parts = stored.parts ++ part ∷ [] } in
      let own = sound.keyed (scrub (bundle_id b)) stored found in
      let unknown : known_fragment part stored.parts ≡ false = ground (arith, new) in
      record {
        outcome =
            appended stored found (ground (arith, new)) (ground (arith, new))
              (unknown-HasPart part stored.parts unknown) (after_found s b bi own) (own_file s b);
        sound = after-IsSound s b bi sound (
            All-append (IsBacked (with_file s b)) stored.parts (part ∷ [])
              (All-IsBacked s b stored.parts (sound.backed (scrub (bundle_id b)) stored found))
              (new_part-IsBacked s b, tt));
        others = after-others s b bi own;
      }
