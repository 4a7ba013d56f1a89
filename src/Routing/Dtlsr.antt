-- ===== src/Routing/Dtlsr.antt =====
-- algorithm_dtlsr.go: delay-tolerant link state routing. A Go map that the code goes through is the list of
-- its entries in that order. `now` is the DTN time in milliseconds, `unix_now` the time in nanoseconds
-- since the Unix epoch. A convergence sender stands for its endpoint.

pub mod Indices
pub mod Tracking
pub mod Tables
pub mod Runs
pub mod Hops
pub mod Handlers
mod Tests
use dtn.Prelude.{
  ℕ, zero, suc, ◌+◌, ◌-◌, ◌%◌, List, [], ◌∷◌, ◌++◌, Option, none, some, Bool, true, false, not,
  ◌&&◌, ◌||◌, ok, err, panic, ◌>>=◌, ltb, ◌==◌, if◌then◌else◌,
}
use dtn.Prelude.Int.{ℤ, pos, ◌+ℤ◌, ltb_ℤ, signed64, u64_mod}
use dtn.Bpv7.Errors.{Result}
use dtn.Bpv7.Endpoint.{EndpointId, eid_eq}
use dtn.Bpv7.Time.{dtn_time_instant}

-- A map of peers: the one that DTLSR keeps of its own peers, which a broadcast hands out as it is and which
-- is changed later, or one that nothing else refers to.
pub data PeerMap : Type 0 where
  own_map : PeerMap
  entries : List (EndpointId × ℕ) → PeerMap

-- DTLSRPeerData of extension_block_dtlsr.go.
pub record PeerData : Type 0 where
  pub data_id : EndpointId
  pub data_time : ℕ
  pub data_peers : PeerMap

-- ShouldReplace
unfoldable pub should_replace : PeerData → PeerData → Bool
should_replace d other = ltb other.data_time d.data_time

pub record Dtlsr : Type 0 where
  pub routing_table : EndpointId → Option EndpointId
  pub peer_change : Bool
  pub own_id : EndpointId
  pub own_time : ℕ
  pub own_peers : List (EndpointId × ℕ)
  pub received_change : Bool
  pub received_data : List PeerData
  pub node_index : EndpointId → Option ℕ
  pub index_node : List EndpointId
  pub node_count : ℕ

-- A map with another entry.
abbrev pub insert : {A : Type 0} → (EndpointId → Option A) → EndpointId → A → EndpointId → Option A
insert m k a e = if eid_eq e k then some a else m e

-- NewDTLSR, without its timers.
unfoldable pub new_dtlsr : EndpointId → ℕ → Dtlsr
new_dtlsr node now = record {
  routing_table = λ e. none;
  peer_change = false;
  own_id = node;
  own_time = now;
  own_peers = [];
  received_change = false;
  received_data = [];
  node_index = insert (λ e. none) node 0;
  index_node = node ∷ [];
  node_count = 1;
}

-- The entries of a map.
unfoldable pub peers_of : Dtlsr → PeerMap → List (EndpointId × ℕ)
peers_of s own_map = s.own_peers
peers_of s (entries ps) = ps

add_node : Dtlsr → EndpointId → Option ℕ → Dtlsr
add_node s e (some n) = s
add_node s e none = record s {
  node_index = insert s.node_index e s.node_count;
  index_node = s.index_node ++ e ∷ [];
  node_count = s.node_count + 1;
}

-- newNode
unfoldable pub new_node : Dtlsr → EndpointId → Dtlsr
unfolding add_node
new_node s e = add_node s e (s.node_index e)

unfoldable pub track_peers : Dtlsr → List (EndpointId × ℕ) → Dtlsr
track_peers s [] = s
track_peers s ((e, t) ∷ ps) = track_peers (new_node s e) ps

unfoldable pub find_data : EndpointId → List PeerData → Option PeerData
find_data e [] = none
find_data e (d ∷ ds) = let rest = find_data e ds in if eid_eq d.data_id e then some d else rest

-- The assignment to receivedData at the ID of the data.
unfoldable pub store_data : PeerData → List PeerData → List PeerData
store_data d [] = d ∷ []
store_data d (x ∷ xs) =
    let rest = store_data d xs in if eid_eq x.data_id d.data_id then d ∷ xs else x ∷ rest

unfoldable pub with_data : Dtlsr → PeerData → Dtlsr
with_data s d = record s { received_data = store_data d s.received_data; received_change = true }

note_stored : Dtlsr → PeerData → Option PeerData → Dtlsr
note_stored s d none = track_peers (new_node (with_data s d) d.data_id) (peers_of s d.data_peers)
note_stored s d (some stored) =
    if should_replace d stored then track_peers (with_data s d) (peers_of s d.data_peers) else s

-- NotifyNewBundle up to the peer data of a bundle's DTLSRBlock.
unfoldable pub note_data : Dtlsr → PeerData → Dtlsr
unfolding note_stored
note_data s d = note_stored s d (find_data d.data_id s.received_data)

unfoldable pub set_peer : EndpointId → ℕ → List (EndpointId × ℕ) → List (EndpointId × ℕ)
set_peer e t [] = (e, t) ∷ []
set_peer e t ((f, u) ∷ ps) =
    let rest = set_peer e t ps in if eid_eq f e then (e, t) ∷ ps else (f, u) ∷ rest

unfoldable pub with_peer : Dtlsr → EndpointId → ℕ → ℕ → Dtlsr
with_peer s e t now = record s {
  own_peers = set_peer e t s.own_peers;
  own_time = now;
  peer_change = true;
}

-- ReportPeerAppeared and ReportPeerDisappeared, for a convergence sender.
unfoldable pub peer_appeared : Dtlsr → EndpointId → ℕ → Dtlsr
peer_appeared s e now = with_peer (new_node s e) e 0 now

unfoldable pub peer_disappeared : Dtlsr → EndpointId → ℕ → Dtlsr
peer_disappeared s e now = with_peer s e now now

unfoldable pub is_stale : ℤ → ℕ → ℕ → Bool
is_stale purge_time unix_now t =
    not (t == 0) && ltb_ℤ (dtn_time_instant t +ℤ purge_time) (pos unix_now)

unfoldable pub purge : ℤ → ℕ → List (EndpointId × ℕ) → List (EndpointId × ℕ) × Bool
purge purge_time unix_now [] = ([], false)
purge purge_time unix_now ((e, t) ∷ ps) =
    let (kept, changed) = purge purge_time unix_now ps in
    if is_stale purge_time unix_now t then (kept, true) else ((e, t) ∷ kept, changed)

-- purgePeers
unfoldable pub purge_peers : ℤ → ℕ → Dtlsr → Dtlsr
purge_peers purge_time unix_now s =
    let (kept, changed) = purge purge_time unix_now s.own_peers in
    record s { own_peers = kept; peer_change = s.peer_change || changed }

-- The package dijkstra: graphs over numbered vertices.
pub record Graphs : Type 1 where
  pub Graph : Type 0
  pub new_graph : Graph
  pub add_vertex : ℕ → Graph → Graph
  pub add_arc : ℕ → ℕ → ℤ → Graph → Option Graph
  pub shortest : Graph → ℕ → ℕ → Option (List ℕ)

unfoldable pub edge_cost : ℕ → ℕ → ℤ
edge_cost now t = if t == 0 then pos 0 else signed64 ((now + (u64_mod - t)) % u64_mod)

-- A missing key of nodeIndex reads as 0.
abbrev pub index_of : Dtlsr → EndpointId → ℕ
index_of s e = elim (s.node_index e) [ some n ↦ n | none ↦ 0 ]

unfoldable pub node_at : List EndpointId → ℕ → Option EndpointId
node_at [] n = none
node_at (e ∷ es) zero = some e
node_at (e ∷ es) (suc n) = node_at es n

abbrev pub or_panic : {A : Type 0} → Option A → Result A
or_panic (some a) = ok a
or_panic none = panic

module _ (graphs : Graphs) where
  open graphs use {Graph, new_graph, add_vertex, add_arc, shortest}

  -- The vertices from `i` on.
  unfoldable pub add_vertices : ℕ → ℕ → Graph → Graph
  add_vertices zero i g = g
  add_vertices (suc n) i g = add_vertices n (suc i) (add_vertex i g)

  add_arcs_with : (Graph → Option Graph) → Option Graph → Option Graph
  add_arcs_with more none = none
  add_arcs_with more (some g) = more g

  unfoldable pub add_arcs : Dtlsr → ℕ → ℕ → List (EndpointId × ℕ) → Graph → Option Graph
  unfolding add_arcs_with
  add_arcs s now from [] g = some g
  add_arcs s now from ((e, t) ∷ ps) g =
      add_arcs_with (add_arcs s now from ps) (add_arc from (index_of s e) (edge_cost now t) g)

  unfoldable pub add_received : Dtlsr → ℕ → List PeerData → Graph → Option Graph
  unfolding add_arcs_with
  add_received s now [] g = some g
  add_received s now (d ∷ ds) g =
      add_arcs_with (add_received s now ds)
        (add_arcs s now (index_of s d.data_id) (peers_of s d.data_peers) g)

  -- One node of the table: no path and a path of one vertex are skipped.
  unfoldable pub add_path :
      Dtlsr
      → EndpointId
      → Option (List ℕ)
      → (EndpointId → Option EndpointId)
      → Result (EndpointId → Option EndpointId)
  add_path s e none table = ok table
  add_path s e (some []) table = ok table
  add_path s e (some (a ∷ [])) table = ok table
  add_path s e (some (a ∷ (b ∷ path))) table = do
    next ← or_panic (node_at s.index_node b)
    ok (insert table e next)

  unfoldable pub fill_table :
      Dtlsr
      → Graph
      → ℕ
      → ℕ
      → (EndpointId → Option EndpointId)
      → Result (EndpointId → Option EndpointId)
  fill_table s g zero i table = ok table
  fill_table s g (suc n) i table = do
    e ← or_panic (node_at s.index_node i)
    table ← add_path s e (shortest g 0 i) table
    fill_table s g n (suc i) table

  with_graph : Dtlsr → Option Graph → Result Dtlsr
  with_graph s none = ok s
  with_graph s (some g) = do
    table ← fill_table s g (s.node_count - 1) 1 (λ e. none)
    ok (record s { routing_table = table })

  -- computeRoutingTable
  unfoldable pub compute_routing_table : Dtlsr → ℕ → Result Dtlsr
  unfolding with_graph add_arcs_with
  compute_routing_table s now = with_graph s (
      add_arcs_with (add_received s now s.received_data)
        (add_arcs s now 0 s.own_peers (add_vertices s.node_count 0 new_graph)))

  -- recomputeCron
  unfoldable pub recompute : Dtlsr → ℕ → Result Dtlsr
  recompute s now =
      if s.peer_change || s.received_change
      then (compute_routing_table s now >>= λ s'. ok (record s' { received_change = false }))
      else ok s

-- The peer data of this node; the map is not copied.
unfoldable pub own_data : Dtlsr → PeerData
own_data s = record { data_id = s.own_id; data_time = s.own_time; data_peers = own_map }

-- broadcast, if the bundle can be built or not: SendBundle notifies the algorithm of it.
unfoldable pub broadcast_data : Bool → Dtlsr → Dtlsr
broadcast_data true s = note_data s (own_data s)
broadcast_data false s = s

-- broadcastCron
unfoldable pub broadcast : Bool → Dtlsr → Dtlsr
broadcast built s =
    if s.peer_change
    then record (broadcast_data built s) { peer_change = false; received_change = true }
    else s

-- The table's choice among the senders, for a bundle that is no broadcast.
unfoldable pub connected : EndpointId → List EndpointId → List EndpointId
connected forwarder [] = []
connected forwarder (cs ∷ css) =
    let rest = connected forwarder css in if eid_eq cs forwarder then cs ∷ [] else rest

hop_to : List EndpointId → List EndpointId × Bool
hop_to [] = ([], false)
hop_to (cs ∷ css) = (cs ∷ css, true)

hop_by : List EndpointId → Option EndpointId → List EndpointId × Bool
hop_by senders none = ([], false)
hop_by senders (some forwarder) = hop_to (connected forwarder senders)

unfoldable pub next_hop : Dtlsr → List EndpointId → EndpointId → List EndpointId × Bool
unfolding hop_by hop_to
next_hop s senders recipient = hop_by senders (s.routing_table recipient)
