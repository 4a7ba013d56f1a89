-- ===== src/Routing/Dtlsr/Tables.antt =====
-- algorithm_dtlsr.go: the routing table, and runs of the algorithm.
use dtn.Prelude.{
  ℕ, zero, suc, ◌+◌, ◌-◌, ◌<◌, ◌≤◌, ◌≡◌, refl, subst, List, [], ◌∷◌, Option, none, some, ok, length,
  arith, All,
}
use mathlib.Core.Option.{some-injective}
use dtn.Prelude.Int.{ℤ}
use dtn.Bpv7.Endpoint.{EndpointId}
use dtn.Routing.Dtlsr.{
  PeerData, Dtlsr, Graphs, insert, index_of, edge_cost, add_vertices, add_arcs, add_arcs_with,
  add_received, add_path, peers_of, fill_table, with_graph, compute_routing_table,
}
use dtn.Routing.Dtlsr.Indices.{IsIndexed, node_at-within}

-- A graph with the vertices below a number: a path in it runs over them.
pub record GraphLaws (graphs : Graphs) : Type 1 where
  pub HasVertices : graphs.Graph → ℕ → Type 0
  pub empty : HasVertices graphs.new_graph 0
  pub with_vertex :
      (g : graphs.Graph) (n : ℕ) → HasVertices g n → HasVertices (graphs.add_vertex n g) (suc n)
  pub with_arc :
      (g g' : graphs.Graph) (a b : ℕ) (c : ℤ) (n : ℕ)
      → HasVertices g n
      → graphs.add_arc a b c g ≡ some g'
      → HasVertices g' n
  pub path_within :
      (g : graphs.Graph) (a b n : ℕ) (path : List ℕ)
      → HasVertices g n
      → graphs.shortest g a b ≡ some path
      → All (λ v. v < n) path

module _ (graphs : Graphs) (laws : GraphLaws graphs) where
  open graphs use {Graph, new_graph, add_vertex, add_arc, shortest}
  open laws use {HasVertices}

  add_vertices-HasVertices :
      (n i : ℕ) (g : Graph) → HasVertices g i → HasVertices (add_vertices graphs n i g) (i + n)
  unfolding add_vertices
  add_vertices-HasVertices zero i g h = subst (HasVertices g) (omega arith) h
  add_vertices-HasVertices (suc n) i g h =
      subst (HasVertices (add_vertices graphs n (suc i) (add_vertex i g))) (omega arith)
        (add_vertices-HasVertices n (suc i) (add_vertex i g) (laws.with_vertex g i h))

  -- A function that leaves the vertices as they are, if it gives a graph.
  abbrev Keeps : ℕ → (Graph → Option Graph) → Type 0
  Keeps n f = (g g' : Graph) → HasVertices g n → f g ≡ some g' → HasVertices g' n

  add_arcs_with-Keeps :
      (n : ℕ) (more : Graph → Option Graph) (o : Option Graph) {g' : Graph}
      → Keeps n more
      → ((g : Graph) → o ≡ some g → HasVertices g n)
      → add_arcs_with graphs more o ≡ some g'
      → HasVertices g' n
  unfolding add_arcs_with
  add_arcs_with-Keeps n more none keeps h q = cc
  add_arcs_with-Keeps n more (some g) keeps h q = keeps g _ (h g refl) q

  add_arcs-Keeps :
      (n : ℕ) (s : Dtlsr) (now from : ℕ) (ps : List (EndpointId × ℕ))
      → Keeps n (add_arcs graphs s now from ps)
  unfolding add_arcs
  add_arcs-Keeps n s now from [] = λ g g' h q. subst (λ g. HasVertices g n) (some-injective _ _ q) h
  add_arcs-Keeps n s now from ((e, t) ∷ ps) = λ g g' h q.
      add_arcs_with-Keeps n (add_arcs graphs s now from ps)
        (add_arc from (index_of s e) (edge_cost now t) g) (add_arcs-Keeps n s now from ps)
        (λ g1 r. laws.with_arc g g1 from (index_of s e) (edge_cost now t) n h r) q

  add_received-Keeps :
      (n : ℕ) (s : Dtlsr) (now : ℕ) (ds : List PeerData) → Keeps n (add_received graphs s now ds)
  unfolding add_received
  add_received-Keeps n s now [] = λ g g' h q. subst (λ g. HasVertices g n) (some-injective _ _ q) h
  add_received-Keeps n s now (d ∷ ds) = λ g g' h q.
      add_arcs_with-Keeps n (add_received graphs s now ds)
        (add_arcs graphs s now (index_of s d.data_id) (peers_of s d.data_peers) g)
        (add_received-Keeps n s now ds)
        (λ g1 r. add_arcs-Keeps n s now (index_of s d.data_id) (peers_of s d.data_peers) g g1 h r) q

  add_path-total :
      (s : Dtlsr) (e : EndpointId) (o : Option (List ℕ)) (table : EndpointId → Option EndpointId)
      → ((path : List ℕ) → o ≡ some path → All (λ v. v < length s.index_node) path)
      → (table' : EndpointId → Option EndpointId) × (add_path graphs s e o table ≡ ok table')
  unfolding add_path
  add_path-total s e none table h = (table, refl)
  add_path-total s e (some []) table h = (table, refl)
  add_path-total s e (some (a ∷ [])) table h = (table, refl)
  add_path-total s e (some (a ∷ (b ∷ path))) table h =
      let (next, there) = node_at-within s.index_node b (h (a ∷ (b ∷ path)) refl).1.0 in
      (insert table e next, rw there refl)

  fill_table-total :
      (s : Dtlsr) (g : Graph) (n i : ℕ) (table : EndpointId → Option EndpointId)
      → IsIndexed s
      → HasVertices g s.node_count
      → i + n ≤ s.node_count
      → (table' : EndpointId → Option EndpointId) × (fill_table graphs s g n i table ≡ ok table')
  unfolding fill_table
  fill_table-total s g zero i table h has bound = (table, refl)
  fill_table-total s g (suc n) i table h has bound =
      let (e, there) = node_at-within s.index_node i (omega (arith, bound, h.counted)) in
      let (table1, added) = add_path-total s e (shortest g 0 i) table (λ path q.
        subst (λ k. All (λ v. v < k) path) h.counted
          (laws.path_within g 0 i s.node_count path has q)) in
      let (table2, filled) = fill_table-total s g n (suc i) table1 h has (omega (arith, bound)) in
      (table2, rw there (rw added filled))

  with_graph-total :
      (s : Dtlsr) (o : Option Graph)
      → IsIndexed s
      → ((g : Graph) → o ≡ some g → HasVertices g s.node_count)
      → (table : EndpointId → Option EndpointId) × (with_graph graphs s o
          ≡ ok (record s { routing_table = table }))
  unfolding with_graph
  with_graph-total s none h has = (s.routing_table, refl)
  with_graph-total s (some g) h has =
      let (table, filled) =
        fill_table-total s g (s.node_count - 1) 1 (λ e. none) h (has g refl)
          (omega (arith, h.started)) in
      (table, rw filled refl)

  -- Computing the routing table panics nowhere, and changes only the table.
  pub compute_routing_table-total :
      (s : Dtlsr) (now : ℕ)
      → IsIndexed s
      → (table : EndpointId → Option EndpointId) × (compute_routing_table graphs s now
          ≡ ok (record s { routing_table = table }))
  unfolding compute_routing_table
  compute_routing_table-total s now h = with_graph-total s _ h (λ g q.
      add_arcs_with-Keeps s.node_count (add_received graphs s now s.received_data) _
        (add_received-Keeps s.node_count s now s.received_data)
        (λ g1 r.
          add_arcs-Keeps s.node_count s now 0 s.own_peers
            (add_vertices graphs s.node_count 0 new_graph) g1
            (subst (HasVertices (add_vertices graphs s.node_count 0 new_graph)) (omega arith)
              (add_vertices-HasVertices s.node_count 0 new_graph laws.empty))
            r)
        q)
