-- ===== src/Routing/Descriptor.antt =====
-- bundle_descriptor.go and constraint.go: a bundle with its retention constraints. The set of
-- constraints is the key set of the map; tags are left out. The properties of an item are those that
-- pkg/routing sets, "bundlepack/..." and "routing/<algorithm>/...".
pub mod Sync
use dtn.Prelude.{
  ℕ, ◌+◌, ◌-◌, ◌/◌, List, [], ◌∷◌, Option, none, some, Bool, true, false, not, ◌&&◌, ◌||◌, Run, ok,
  err, panic, ◌>>=◌, ◌==◌, if◌then◌else◌,
}
use dtn.Bpv7.Errors.{Result, not_stored}
use dtn.Bpv7.Endpoint.{EndpointId, dtn_none}
use dtn.Bpv7.Bundle.{Bundle, BundleId, bundle_id, scrub}
use dtn.Storage.{Error, BundlePart, BundleItem, Store, query_id, push, update, delete}
use dtn.Storage.Load.{load_file}

pub data Constraint : Type 0 where
  dispatch_pending forward_pending reassembly_pending contraindicated local_endpoint : Constraint

pub record Constraints : Type 0 where
  pub for_dispatch : Bool
  pub for_forward : Bool
  pub for_reassembly : Bool
  pub as_contraindicated : Bool
  pub for_local : Bool

abbrev pub no_constraints : Constraints
no_constraints = record {
  for_dispatch = false;
  for_forward = false;
  for_reassembly = false;
  as_contraindicated = false;
  for_local = false;
}

unfoldable pub set_constraint : Bool → Constraint → Constraints → Constraints
set_constraint b dispatch_pending c = record c { for_dispatch = b }
set_constraint b forward_pending c = record c { for_forward = b }
set_constraint b reassembly_pending c = record c { for_reassembly = b }
set_constraint b contraindicated c = record c { as_contraindicated = b }
set_constraint b local_endpoint c = record c { for_local = b }

-- HasConstraints
unfoldable pub has_constraints : Constraints → Bool
has_constraints c =
    c.for_dispatch || (c.for_forward || (c.for_reassembly || (c.as_contraindicated || c.for_local)))

pub record Properties : Type 0 where
  pub receiver : Option EndpointId
  pub timestamp : Option ℕ
  pub constraints : Option Constraints
  pub destination : Option EndpointId
  pub sent : Option (List EndpointId)

abbrev pub no_properties : Properties
no_properties = record {
  receiver = none;
  timestamp = none;
  constraints = none;
  destination = none;
  sent = none;
}

-- `bndl` is the bundle that the descriptor points to, unless it is nil.
pub record Descriptor : Type 0 where
  pub id : BundleId
  pub held_by : EndpointId
  pub received_at : ℕ
  pub pending : Constraints
  pub bndl : Option Bundle

unfoldable pub add_constraint : Constraint → Descriptor → Descriptor
add_constraint c d = record d { pending = set_constraint true c d.pending }

unfoldable pub remove_constraint : Constraint → Descriptor → Descriptor
remove_constraint c d = record d { pending = set_constraint false c d.pending }

unfoldable pub purge_constraints : Descriptor → Descriptor
purge_constraints d = record d {
  pending = record no_constraints { for_local = d.pending.for_local };
}

abbrev pub or_else {ℓ} : {A : Type ℓ} → Option A → A → A
or_else none a = a
or_else (some b) a = b

unfoldable pub described : ℕ → BundleId → Option (BundleItem Properties) → Descriptor
described now bid none = record {
  id = bid;
  held_by = dtn_none;
  received_at = now;
  pending = no_constraints;
  bndl = none;
}
described now bid (some bi) = record {
  id = bid;
  held_by = or_else bi.properties.receiver dtn_none;
  received_at = or_else bi.properties.timestamp now;
  pending = or_else bi.properties.constraints no_constraints;
  bndl = none;
}

-- The item that Sync stores.
unfoldable pub synced : BundleItem Properties → Descriptor → BundleItem Properties
synced bi d = record bi {
  pending = not d.pending.for_reassembly && (d.pending.for_forward || d.pending.as_contraindicated);
  properties = record bi.properties {
    receiver = some d.held_by;
    timestamp = some d.received_at;
    constraints = some d.pending;
  };
}

-- An error of Sync is dropped by its callers; a panic is none.
unfoldable pub dropped : Store Properties → Run Error (Store Properties) → Result (Store Properties)
dropped s (ok s') = ok s'
dropped s (err e) = ok s
dropped s panic = panic

module _ (path : BundleId → ℕ) (fails : ℕ → Bool) where
  abbrev pub item_of : Store Properties → BundleId → Option (BundleItem Properties)
  item_of s bid = query_id no_properties path fails s bid

  -- NewBundleDescriptor
  unfoldable pub new_bundle_descriptor : ℕ → Store Properties → BundleId → Descriptor
  unfolding described
  new_bundle_descriptor now s bid = described now bid (item_of s (scrub bid))

  unfoldable pub push_bundle : Store Properties → Option Bundle → Run Error (Store Properties)
  push_bundle s none = panic
  push_bundle s (some b) = push no_properties path fails s b

  unfoldable pub sync_item :
      Store Properties → Descriptor → Option (BundleItem Properties) → Run Error (Store Properties)
  sync_item s d none = push_bundle s d.bndl
  sync_item s d (some bi) =
      if has_constraints d.pending
      then update no_properties path fails s (synced bi d)
      else ok (delete no_properties path fails s d.id)

  -- Sync
  unfoldable pub sync : Store Properties → Descriptor → Run Error (Store Properties)
  unfolding sync_item push_bundle
  sync s d = sync_item s d (item_of s (scrub d.id))

  -- `_ = bp.Sync()`
  unfoldable pub sync_dropped : Store Properties → Descriptor → Result (Store Properties)
  sync_dropped s d = dropped s (sync s d)

  -- NewBundleDescriptorFromBundle
  unfoldable pub descriptor_of_bundle :
      ℕ → Store Properties → Bundle → Result (Descriptor × Store Properties)
  descriptor_of_bundle now s b = do
    let d : Descriptor = record (new_bundle_descriptor now s (bundle_id b)) { bndl = some b }
    s' ← sync_dropped s d
    ok (d, s')

  unfoldable pub first_part : ℕ → Store Properties → List BundlePart → Result Bundle
  first_part now s [] = panic
  first_part now s (p ∷ ps) = load_file now p.filename (s.files p.filename)

  unfoldable pub loaded : ℕ → Store Properties → Option (BundleItem Properties) → Result Bundle
  loaded now s none = err not_stored
  loaded now s (some bi) = first_part now s bi.parts

  unfoldable pub bundle_at : ℕ → Store Properties → Descriptor → Option Bundle → Result Bundle
  bundle_at now s d (some b) = ok b
  bundle_at now s d none = loaded now s (item_of s (scrub d.id))

  -- BundleDescriptor.Bundle
  unfoldable pub descriptor_bundle : ℕ → Store Properties → Descriptor → Result Bundle
  unfolding bundle_at loaded first_part
  descriptor_bundle now s d = bundle_at now s d d.bndl
