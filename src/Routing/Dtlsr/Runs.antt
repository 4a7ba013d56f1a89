-- ===== src/Routing/Dtlsr/Runs.antt =====
-- algorithm_dtlsr.go: any calls of the algorithm, one after the other.
use dtn.Prelude.{
  ℕ, ◌≡◌, refl, List, [], ◌∷◌, Option, none, some, Bool, true, false, ◌||◌, ok, ◌>>=◌, arith,
  if-elim,
}
use dtn.Prelude.Int.{ℤ}
use dtn.Bpv7.Errors.{Result}
use dtn.Bpv7.Endpoint.{EndpointId}
use dtn.Routing.Dtlsr.{
  PeerData, Dtlsr, Graphs, new_dtlsr, new_node, note_data, with_peer, peer_appeared,
  peer_disappeared, purge_peers, own_data, broadcast_data, broadcast, recompute, node_at,
}
use dtn.Routing.Dtlsr.Indices.{IsTracked, added_index, added_found}
use dtn.Routing.Dtlsr.Tracking.{
  IsTrackedMap, IsTrackedData, IsConsistent, new_node-IsConsistent, note_data-IsConsistent,
}
use dtn.Routing.Dtlsr.Tables.{GraphLaws, compute_routing_table-total}

-- The calls of the algorithm that change its state, with their times.
pub data Event : Type 0 where
  noted : PeerData → Event
  appeared disappeared : EndpointId → ℕ → Event
  purged : ℤ → ℕ → Event
  recomputed : ℕ → Event
  broadcasted : Bool → Event

module _ (graphs : Graphs) where
  unfoldable pub after_event : Event → Dtlsr → Result Dtlsr
  after_event (noted d) s = ok (note_data s d)
  after_event (appeared e now) s = ok (peer_appeared s e now)
  after_event (disappeared e now) s = ok (peer_disappeared s e now)
  after_event (purged purge_time unix_now) s = ok (purge_peers purge_time unix_now s)
  after_event (recomputed now) s = recompute graphs s now
  after_event (broadcasted built) s = ok (broadcast built s)

  unfoldable pub after_events : List Event → Dtlsr → Result Dtlsr
  after_events [] s = ok s
  after_events (x ∷ xs) s = do s ← after_event x s; after_events xs s

no_node_at : (e : EndpointId) (n : ℕ) → node_at [] n ≡ some e → ◌≡◌ {A = Option ℕ} none (some n)
unfolding node_at
no_node_at e n h = cc

new_dtlsr-IsConsistent : (node : EndpointId) (now : ℕ) → IsConsistent (new_dtlsr node now)
unfolding new_dtlsr
new_dtlsr-IsConsistent node now = record {
  numbered = record {
    started = omega arith;
    counted = refl;
    indexed = λ e n h. added_index (λ f. none) [] node e n (λ g k q. cc) h;
    found = λ e n h. added_found (λ f. none) [] node e n refl no_node_at h;
  };
  tracked = tt;
}

with_peer-IsConsistent :
    (s : Dtlsr) (e : EndpointId) (t now : ℕ) → IsConsistent s → IsConsistent (with_peer s e t now)
unfolding with_peer IsTracked IsTrackedData IsTrackedMap
with_peer-IsConsistent s e t now h = record {
  numbered = record {
    started = h.numbered.started;
    counted = h.numbered.counted;
    indexed = h.numbered.indexed;
    found = h.numbered.found;
  };
  tracked = h.tracked;
}

purge_peers-IsConsistent :
    (purge_time : ℤ) (unix_now : ℕ) (s : Dtlsr)
    → IsConsistent s
    → IsConsistent (purge_peers purge_time unix_now s)
unfolding purge_peers IsTracked IsTrackedData IsTrackedMap
purge_peers-IsConsistent purge_time unix_now s h = record {
  numbered = record {
    started = h.numbered.started;
    counted = h.numbered.counted;
    indexed = h.numbered.indexed;
    found = h.numbered.found;
  };
  tracked = h.tracked;
}

changed-IsConsistent :
    (s : Dtlsr) (peer_change received_change : Bool) (table : EndpointId → Option EndpointId)
    → IsConsistent s
    → IsConsistent (record s {
      peer_change = peer_change;
      received_change = received_change;
      routing_table = table;
    })
unfolding IsTracked IsTrackedData IsTrackedMap
changed-IsConsistent s peer_change received_change table h = record {
  numbered = record {
    started = h.numbered.started;
    counted = h.numbered.counted;
    indexed = h.numbered.indexed;
    found = h.numbered.found;
  };
  tracked = h.tracked;
}

broadcast_data-IsConsistent :
    (built : Bool) (s : Dtlsr) → IsConsistent s → IsConsistent (broadcast_data built s)
unfolding broadcast_data
broadcast_data-IsConsistent true s h = note_data-IsConsistent s (own_data s) h
broadcast_data-IsConsistent false s h = h

broadcast-IsConsistent :
    (built : Bool) (s : Dtlsr) → IsConsistent s → IsConsistent (broadcast built s)
unfolding broadcast
broadcast-IsConsistent built s h =
    let s1 = broadcast_data built s in
    if-elim IsConsistent s.peer_change _ _
      (λ _.
        changed-IsConsistent s1 false true s1.routing_table (broadcast_data-IsConsistent built s h))
      (λ _. h)

module _ (graphs : Graphs) (laws : GraphLaws graphs) where
  recompute-total :
      (s : Dtlsr) (now : ℕ)
      → IsConsistent s
      → (s' : Dtlsr) × (recompute graphs s now ≡ ok s') × IsConsistent s'
  unfolding recompute
  recompute-total s now h =
      let (table, computed) = compute_routing_table-total graphs laws s now h.numbered in
      if-elim (λ (r : Result Dtlsr). (s' : Dtlsr) × (r ≡ ok s') × IsConsistent s')
        (s.peer_change || s.received_change) _ _
        (λ _. (
          record s { routing_table = table; received_change = false },
          rw computed refl,
          changed-IsConsistent s s.peer_change false table h,
        ))
        (λ _. (s, refl, h))

  after_event-total :
      (x : Event) (s : Dtlsr)
      → IsConsistent s
      → (s' : Dtlsr) × (after_event graphs x s ≡ ok s') × IsConsistent s'
  unfolding after_event peer_appeared peer_disappeared
  after_event-total (noted d) s h = (note_data s d, refl, note_data-IsConsistent s d h)
  after_event-total (appeared e now) s h = (
    peer_appeared s e now,
    refl,
    with_peer-IsConsistent (new_node s e) e 0 now (new_node-IsConsistent s e h),
  )
  after_event-total (disappeared e now) s h =
      (peer_disappeared s e now, refl, with_peer-IsConsistent s e now now h)
  after_event-total (purged purge_time unix_now) s h =
      (purge_peers purge_time unix_now s, refl, purge_peers-IsConsistent purge_time unix_now s h)
  after_event-total (recomputed now) s h = recompute-total s now h
  after_event-total (broadcasted built) s h =
      (broadcast built s, refl, broadcast-IsConsistent built s h)

  events-total :
      (xs : List Event) (s : Dtlsr)
      → IsConsistent s
      → (s' : Dtlsr) × (after_events graphs xs s ≡ ok s') × IsConsistent s'
  unfolding after_events
  events-total [] s h = (s, refl, h)
  events-total (x ∷ xs) s h =
      let (s1, first, h1) = after_event-total x s h in
      let (s2, rest, h2) = events-total xs s1 h1 in (s2, rw first rest, h2)

  -- If a path in a graph runs over the vertices that were added: whatever calls a new DTLSR gets, in any order
  -- and with any peer data, none of them panics, also not where the routing table is computed;
  -- afterwards nodeIndex and indexNode are inverse to each other, the length is that of
  -- indexNode, and of all received data the sender has a number, and so have its peers unless they
  -- are the node's own map, which a broadcast hands out as it is.
  pub after_events-IsConsistent :
      (node : EndpointId) (now : ℕ) (xs : List Event)
      → (s : Dtlsr) × (after_events graphs xs (new_dtlsr node now) ≡ ok s) × IsConsistent s
  after_events-IsConsistent node now xs =
      events-total xs (new_dtlsr node now) (new_dtlsr-IsConsistent node now)
