-- ===== src/Routing/Descriptor/Sync.antt =====
-- bundle_descriptor.go: what Sync does to the item of a stored bundle.
use dtn.Prelude.{ℕ, ◌≡◌, refl, ap, ◌∙◌, some, Bool, true, ok}
use dtn.Bpv7.Bundle.{BundleId, scrub}
use dtn.Storage.{BundleItem, Store, same_id, query_id, put, update}
use dtn.Storage.Push.{same_id_refl}
use dtn.Routing.Descriptor.{
  has_constraints, Properties, no_properties, Descriptor, synced, dropped, item_of, sync_item, sync,
  sync_dropped,
}

module _ (path : BundleId → ℕ) (fails : ℕ → Bool) where
  -- The store with another item for the same bundle.
  abbrev pub with_item : Store Properties → BundleItem Properties → Store Properties
  with_item s bi = put no_properties path fails s bi.b_id bi

  -- The item of an ID, stored under this ID.
  pub record IsStored (s : Store Properties) (id : BundleId) (bi : BundleItem Properties)
      : Type 0 where
    pub found : item_of path fails s (scrub id) ≡ some bi
    pub own_id : bi.b_id ≡ scrub id

  pub with_item-IsStored :
      (s : Store Properties) (id : BundleId) (bi : BundleItem Properties)
      → bi.b_id ≡ scrub id
      → IsStored (with_item s bi) id bi
  unfolding query_id scrub
  with_item-IsStored s id bi own = record {
    found = rw own (rw (same_id_refl (scrub id)) refl);
    own_id = own;
  }

  pub update_known :
      (s : Store Properties) (bi old : BundleItem Properties)
      → s.items bi.b_id ≡ some old
      → update no_properties path fails s bi ≡ ok (with_item s bi)
  unfolding update same_id
  update_known s bi old h = rw (h, update) refl

  pub own_item :
      (s : Store Properties) (id : BundleId) (bi : BundleItem Properties)
      → IsStored s id bi
      → s.items bi.b_id ≡ some bi
  unfolding query_id scrub
  own_item s id bi h = ap s.items h.own_id ∙ h.found

  -- Sync stores the constraints, if there are any.
  pub sync-update :
      (s : Store Properties) (d : Descriptor) (bi : BundleItem Properties)
      → IsStored s d.id bi
      → has_constraints d.pending ≡ true
      → sync path fails s d ≡ ok (with_item s (synced bi d))
  unfolding sync sync_item synced
  sync-update s d bi h some_constraint =
      rw (h.found, sync_item)
        (rw some_constraint (update_known s (synced bi d) bi (own_item s d.id bi h)))

  pub sync_dropped-update :
      (s : Store Properties) (d : Descriptor) (bi : BundleItem Properties)
      → IsStored s d.id bi
      → has_constraints d.pending ≡ true
      → sync_dropped path fails s d ≡ ok (with_item s (synced bi d))
  unfolding sync_dropped dropped
  sync_dropped-update s d bi h some_constraint = rw (sync-update s d bi h some_constraint) refl

  -- What Sync leaves is stored under the same ID.
  pub synced-IsStored :
      (s : Store Properties) (d : Descriptor) (bi : BundleItem Properties)
      → IsStored s d.id bi
      → IsStored (with_item s (synced bi d)) d.id (synced bi d)
  unfolding synced
  synced-IsStored s d bi h = with_item-IsStored s d.id (synced bi d) h.own_id
