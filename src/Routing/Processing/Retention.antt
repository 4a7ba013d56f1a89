-- ===== src/Routing/Processing/Retention.antt =====
-- processing.go: a bundle that reaches nobody stays in the store.
use dtn.Prelude.{
  ℕ, ◌≡◌, refl, subst, List, [], ◌∷◌, some, Bool, true, false, ok, >>=-eq-ok, ok-injective, arith,
}
use dtn.Bpv7.Errors.{Result}
use dtn.Bpv7.Endpoint.{EndpointId}
use dtn.Bpv7.Bundle.{Bundle, BundleId}
use dtn.Storage.{BundleItem, BundlePart, Store}
use dtn.Routing.Descriptor.{
  Properties, Descriptor, Constraints, contraindicated, add_constraint, set_constraint,
  has_constraints, synced,
}
use dtn.Routing.Descriptor.Sync.{IsStored, sync_dropped-update, synced-IsStored}
use dtn.Routing.Core.{Memory, Choice, World, Effect, sender_for_destination}
use dtn.Routing.Processing.Blocks.{set_previous_node, uncount_hop}
use dtn.Routing.Processing.Forwarding.{
  bundle_contraindicated, choose, send_one, send_all, after_sending, transmit_to_peers,
}
use dtn.Routing.Processing.Reports.{keep}
use dtn.Routing.Processing.State.{Node, Sending, in_memory}

module _ {S : Type 0} (node : Node S) where
  open node use {core}

  -- The bundle's item is there, with these parts.
  pub record IsHeld (s : Store Properties) (id : BundleId) (parts : List BundlePart) : Type 0 where
    pub item : BundleItem Properties
    pub stored : IsStored node.path node.fails s id item
    pub same_parts : item.parts ≡ parts

  -- An algorithm that keeps the item of the bundle that it is asked about.
  pub record KeepsItem : Type 0 where
    pub chosen_held :
        (m : Memory S) (d : Descriptor) (b : Bundle) (c : Choice S) (parts : List BundlePart)
        → IsHeld m.store d.id parts
        → node.algorithm.sender_for_bundle m d b ≡ ok c
        → IsHeld c.memory.store d.id parts
    pub failed_held :
        (m : Memory S) (d : Descriptor) (peer : EndpointId) (b : Bundle) (m' : Memory S)
        (b' : Bundle) (parts : List BundlePart)
        → IsHeld m.store d.id parts
        → node.algorithm.report_failure m d peer b ≡ ok (m', b')
        → IsHeld m'.store d.id parts

  module _ (keeps : KeepsItem)
      (failing : (trace : List Effect) (peer : EndpointId) (b : Bundle)
        → node.sends trace peer b ≡ false)
      (d : Descriptor) (parts : List BundlePart) where
    Unsent : Sending S → Type 0
    Unsent s = (s.any_sent ≡ false) × IsHeld s.world.memory.store d.id parts

    send_one-Unsent :
        (peer : EndpointId) (s : Sending S) {s' : Sending S}
        → Unsent s
        → send_one node d peer s ≡ ok s'
        → Unsent s'
    unfolding send_one Unsent
    send_one-Unsent peer s (none_sent, held) h =
        let h' = rw (failing s.world.trace peer s.bundle) at h in
        let (x, failed, eq) =
          >>=-eq-ok (node.algorithm.report_failure s.world.memory _ peer s.bundle) _ h' in
        subst Unsent (ok-injective eq) (none_sent, keeps.failed_held _ _ _ _ _ _ parts held failed)

    send_all-Unsent :
        (peers : List EndpointId) (s : Sending S) {s' : Sending S}
        → Unsent s
        → send_all node d peers s ≡ ok s'
        → Unsent s'
    unfolding send_all
    send_all-Unsent [] s u h = subst Unsent (ok-injective h) u
    send_all-Unsent (peer ∷ peers) s u h =
        let (s1, first, rest) = >>=-eq-ok (send_one node d peer s) _ h in
        send_all-Unsent peers s1 (send_one-Unsent peer s u first) rest

    choose-IsHeld :
        (b : Bundle) (w : World S) (direct : List EndpointId) {c : Choice S}
        → IsHeld w.memory.store d.id parts
        → choose node d b w direct ≡ ok c
        → IsHeld c.memory.store d.id parts
    unfolding choose
    choose-IsHeld b w [] held h = keeps.chosen_held _ _ _ _ parts held h
    choose-IsHeld b w (cs ∷ css) held h =
        subst (λ (c : Choice S). IsHeld c.memory.store d.id parts) (ok-injective h) held

  -- The bundle's item is there with these parts, and checkPendingBundles finds it.
  pub record IsRetained (s : Store Properties) (id : BundleId) (parts : List BundlePart)
      : Type 0 where
    pub held : IsHeld s id parts
    pub marked : held.item.pending ≡ true

  contraindicated_some :
      (c : Constraints) → has_constraints (set_constraint true contraindicated c) ≡ true
  unfolding has_constraints set_constraint
  contraindicated_some c = ground arith

  contraindicated-IsRetained :
      (d : Descriptor) (b : Bundle) (w : World S) (parts : List BundlePart) {w' : World S}
      → d.pending.for_reassembly ≡ false
      → IsHeld w.memory.store d.id parts
      → bundle_contraindicated node d b w ≡ ok w'
      → IsRetained w'.memory.store d.id parts
  unfolding bundle_contraindicated keep add_constraint set_constraint synced
  contraindicated-IsRetained d b w parts whole held h =
      let d' : Descriptor = record (add_constraint contraindicated d) { bndl = some b } in
      let synchronized =
        sync_dropped-update node.path node.fails w.memory.store d' held.item held.stored
          (contraindicated_some d.pending) in
      subst (λ (w' : World S). IsRetained w'.memory.store d.id parts)
        (ok-injective (rw synchronized at h))
        record {
          held = record {
            item = synced held.item d';
            stored = synced-IsStored node.path node.fails w.memory.store d' held.item held.stored;
            same_parts = held.same_parts;
          };
          marked = rw whole (ground arith);
        }

  module _ (report : Descriptor → Bundle → ℕ → ℕ → World S → Result (World S)) where
    after_sending-IsRetained :
        (d : Descriptor) (delete_afterwards : Bool) (s : Sending S) (parts : List BundlePart)
        {w' : World S}
        → d.pending.for_reassembly ≡ false
        → s.any_sent ≡ false
        → IsHeld s.world.memory.store d.id parts
        → after_sending node report d delete_afterwards s ≡ ok w'
        → IsRetained w'.memory.store d.id parts
    unfolding after_sending
    after_sending-IsRetained d delete_afterwards s parts whole none_sent held h =
        contraindicated-IsRetained d s.bundle s.world parts whole held (rw none_sent at h)

    -- If every transmission fails, and the algorithm keeps the item of the bundle: once forward has looked for
    -- peers for a bundle that does not wait for its reassembly and is stored, and has returned, the bundle is still
    -- stored with all its parts, and is marked so that checkPendingBundles tries it again. This holds
    -- for any peers, also none, and whatever the algorithm says about its deletion.
    pub transmit_to_peers-IsRetained :
        (d : Descriptor) (b : Bundle) (w : World S) (parts : List BundlePart) {w' : World S}
        → KeepsItem
        → ((trace : List Effect) (peer : EndpointId) (x : Bundle) → node.sends trace peer x ≡ false)
        → d.pending.for_reassembly ≡ false
        → IsHeld w.memory.store d.id parts
        → transmit_to_peers node report d b w ≡ ok w'
        → IsRetained w'.memory.store d.id parts
    unfolding transmit_to_peers Unsent
    transmit_to_peers-IsRetained d b w parts keeps failing whole held h =
        let (b1, _, h1) = >>=-eq-ok (set_previous_node core.node_id b _) _ h in
        let direct = sender_for_destination core.senders b1.primary_block.destination in
        let (c, chosen, h2) = >>=-eq-ok (choose node d b1 w direct) _ h1 in
        let held' = choose-IsHeld keeps failing d parts b1 w direct held chosen in
        let s0 : Sending S = record {
          any_sent = false;
          world = in_memory w c.memory;
          bundle = c.bundle;
        } in
        let (s, sent, h3) = >>=-eq-ok (send_all node d c.chosen s0) _ h2 in
        let (none_sent, held'') =
          send_all-Unsent keeps failing d parts c.chosen s0 (refl, held') sent in
        let (b4, _, h4) = >>=-eq-ok (uncount_hop s.bundle _) _ h3 in
        after_sending-IsRetained d c.delete_afterwards (record s { bundle = b4 }) parts whole
          none_sent held'' h4
