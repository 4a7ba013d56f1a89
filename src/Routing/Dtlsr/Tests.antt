-- ===== src/Routing/Dtlsr/Tests.antt =====
-- A node that hears of a peer and of its peer, and goes through a graph by a fixed path.
use dtn.Prelude.{
  ℕ, suc, ◌<◌, ◌≡◌, refl, sym, ◌∙◌, subst, List, [], ◌∷◌, Option, none, some, true, ok, arith, All,
  ltb, if◌then◌else◌, if-elim,
}
use mathlib.Core.Option.{some-injective}
use dtn.Prelude.Int.{pos}
use dtn.Bpv7.Endpoint.{EndpointId, ipn_endpoint}
use dtn.Routing.Dtlsr.{entries, PeerData, Dtlsr, Graphs, new_dtlsr, next_hop}
use dtn.Routing.Dtlsr.Tables.{GraphLaws}
use dtn.Routing.Dtlsr.Tracking.{IsConsistent}
use dtn.Routing.Dtlsr.Runs.{
  Event, noted, appeared, disappeared, purged, recomputed, broadcasted, after_events,
  after_events-IsConsistent,
}
use dtn.Routing.Dtlsr.Hops.{IsHop, next_hop-IsHop}

abbrev at : ℕ → EndpointId
at n = some (ipn_endpoint (record { node = n; service = 1 }))

-- A graph is the number of its vertices, all on one line from the first.
abbrev line_to : ℕ → ℕ → ℕ → Option (List ℕ)
line_to n a b = if ltb b n then (if ltb a n then some (a ∷ b ∷ []) else none) else none

abbrev lines : Graphs
lines = record {
  Graph = ℕ;
  new_graph = 0;
  add_vertex = λ n g. suc n;
  add_arc = λ a b c g. some g;
  shortest = line_to;
}

line_within :
    (n a b k : ℕ) (path : List ℕ) → n ≡ k → line_to n a b ≡ some path → All (λ v. v < k) path
line_within n a b k path same h =
    if-elim (λ (o : Option (List ℕ)). o ≡ some path → All (λ v. v < k) path) (ltb b n) _ _
      (λ below q.
        if-elim (λ (o : Option (List ℕ)). o ≡ some path → All (λ v. v < k) path) (ltb a n) _ _
          (λ start r.
            subst (All (λ v. v < k)) (some-injective _ _ r)
              (ground (arith, same, start), (ground (arith, same, below), tt)))
          (λ _ r. cc) q)
      (λ _ q. cc) h

lines-GraphLaws : GraphLaws lines
lines-GraphLaws = record {
  HasVertices = λ g n. g ≡ n;
  empty = refl;
  with_vertex = λ g n h. refl;
  with_arc = λ g g' a b c n h q. sym (some-injective _ _ q) ∙ h;
  path_within = λ g a b n path h q. line_within g a b n path h q;
}

abbrev heard : PeerData
heard = record { data_id = at 2; data_time = 5; data_peers = entries ((at 3, 0) ∷ (at 1, 4) ∷ []) }

abbrev calls : List Event
calls =
    appeared (at 2) 3
    ∷ noted heard
    ∷ recomputed 6
    ∷ broadcasted true
    ∷ disappeared (at 2) 7
    ∷ purged (pos 1) 9
    ∷ []

after_events-IsConsistent_example :
    (s : Dtlsr) × (after_events lines calls (new_dtlsr (at 1) 0) ≡ ok s) × IsConsistent s
after_events-IsConsistent_example = after_events-IsConsistent lines lines-GraphLaws (at 1) 0 calls

abbrev routed : Dtlsr
routed = record (new_dtlsr (at 1) 0) { routing_table = λ e. some (at 2) }

next_hop-IsHop_example :
    IsHop routed (at 4 ∷ at 2 ∷ []) (at 3) (next_hop routed (at 4 ∷ at 2 ∷ []) (at 3))
next_hop-IsHop_example = next_hop-IsHop routed (at 4 ∷ at 2 ∷ []) (at 3)
