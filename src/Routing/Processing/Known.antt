-- ===== src/Routing/Processing/Known.antt =====
-- core.go and processing.go: what a node does with a received bundle of which it stores something.
use dtn.Prelude.{ℕ, ◌≡◌, refl, some, true, not, ◌&&◌, ◌||◌, ok}
use dtn.Bpv7.Errors.{Result}
use dtn.Bpv7.Endpoint.{EndpointId, dtn_none}
use dtn.Bpv7.Bundle.{Bundle, bundle_id, scrub}
use dtn.Storage.{BundleItem, Store}
use dtn.Routing.Descriptor.{
  Constraints, has_constraints, Properties, Descriptor, synced, described, new_bundle_descriptor,
  descriptor_of_bundle, item_of, or_else,
}
use dtn.Routing.Descriptor.Sync.{IsStored, with_item, sync_dropped-update, synced-IsStored}
use dtn.Routing.Core.{World}
use dtn.Routing.Processing.{receive, handle_received}
use dtn.Routing.Processing.Reports.{keep}
use dtn.Routing.Processing.State.{Node, in_store}

-- The item after a bundle with its ID was received: only the receiver is noted anew.
unfoldable pub received_again :
    ℕ → Constraints → EndpointId → BundleItem Properties → BundleItem Properties
received_again now c by bi = record bi {
  pending = not c.for_reassembly && (c.for_forward || c.as_contraindicated);
  properties = record bi.properties {
    receiver = some by;
    timestamp = some (or_else bi.properties.timestamp now);
    constraints = some c;
  };
}

module _ {S : Type 0} (node : Node S)
    (report : Descriptor → Bundle → ℕ → ℕ → World S → Result (World S)) where
  open node use {path, fails, now}

  -- The descriptor of a bundle whose item is stored.
  abbrev known_descriptor : Constraints → BundleItem Properties → Bundle → Descriptor
  known_descriptor c bi b = record {
    id = bundle_id b;
    held_by = or_else bi.properties.receiver dtn_none;
    received_at = or_else bi.properties.timestamp now;
    pending = c;
    bndl = some b;
  }

  described_known :
      (b : Bundle) (s : Store Properties) (bi : BundleItem Properties) (c : Constraints)
      → IsStored path fails s (bundle_id b) bi
      → bi.properties.constraints ≡ some c
      → record (new_bundle_descriptor path fails now s (bundle_id b)) { bndl = some b }
        ≡ known_descriptor c bi b
  unfolding new_bundle_descriptor described
  described_known b s bi c stored pending = rw (stored.found, described) (rw pending refl)

  descriptor_known :
      (b : Bundle) (s : Store Properties) (bi : BundleItem Properties) (c : Constraints)
      → IsStored path fails s (bundle_id b) bi
      → bi.properties.constraints ≡ some c
      → has_constraints c ≡ true
      → descriptor_of_bundle path fails now s b
        ≡ ok (known_descriptor c bi b, with_item path fails s (synced bi (known_descriptor c bi b)))
  unfolding descriptor_of_bundle
  descriptor_known b s bi c stored pending some_constraint =
      rw (described_known b s bi c stored pending) (
        rw (sync_dropped-update path fails s (known_descriptor c bi b) bi stored some_constraint)
          refl)

  -- Of a received bundle or fragment, of whose scrubbed ID an item with a constraint is stored, nothing is
  -- stored and nothing comes of it: no file is written, the item keeps its parts, no algorithm
  -- and no agent is told, and nothing is sent. This holds also for a fragment that the item does not have.
  pub handle_received-known :
      (by : EndpointId) (b : Bundle) (w : World S) (bi : BundleItem Properties) (c : Constraints)
      → IsStored path fails w.memory.store (bundle_id b) bi
      → bi.properties.constraints ≡ some c
      → has_constraints c ≡ true
      → (s : Store Properties) × (handle_received node report by b w ≡ ok (in_store w s))
        × (item_of path fails s (scrub (bundle_id b)) ≡ some (received_again now c by bi))
        × (s.files ≡ w.memory.store.files)
  unfolding handle_received receive keep received_again synced
  handle_received-known by b w bi c stored pending some_constraint =
      let d = known_descriptor c bi b in
      let s1 = with_item path fails w.memory.store (synced bi d) in
      let stored1 = synced-IsStored path fails w.memory.store d bi stored in
      let d' : Descriptor = record d { held_by = by } in
      let s2 = with_item path fails s1 (synced (synced bi d) d') in
      (
        s2,
        rw (descriptor_known b w.memory.store bi c stored pending some_constraint) (
            rw (sync_dropped-update path fails s1 d' (synced bi d) stored1 some_constraint)
              (rw some_constraint refl)),
        (synced-IsStored path fails s1 d' (synced bi d) stored1).found,
        refl,
      )
