-- ===== src/Routing/Dtlsr/Hops.antt =====
-- algorithm_dtlsr.go: the one sender for a bundle that is no broadcast.
use dtn.Prelude.{
  ◌≡◌, refl, sym, subst, List, [], ◌∷◌, Option, none, some, Bool, true, false, ◌||◌, inl, inr, ◌⊎◌,
  Bool-cases,
}
use dtn.Bpv7.Endpoint.{EndpointId, eid_eq, eid_eq_refl, eid_eq_sound}
use dtn.Routing.Spray.{known}
use dtn.Routing.Spray.Copies.{eid_eq_sym}
use dtn.Routing.Dtlsr.{Dtlsr, connected, hop_to, hop_by, next_hop}

-- No sender, or the one that the table names, which is connected; only then is the bundle deleted afterwards.
pub data IsHop (s : Dtlsr) (senders : List EndpointId) (recipient : EndpointId)
    : List EndpointId × Bool → Type 0 where
  unknown : s.routing_table recipient ≡ none → IsHop s senders recipient ([], false)
  unconnected :
      (forwarder : EndpointId)
      → s.routing_table recipient ≡ some forwarder
      → known forwarder senders ≡ false
      → IsHop s senders recipient ([], false)
  one_hop :
      (forwarder : EndpointId)
      → s.routing_table recipient ≡ some forwarder
      → known forwarder senders ≡ true
      → IsHop s senders recipient (forwarder ∷ [], true)

connected_lem :
    (f : EndpointId) (css : List EndpointId)
    → ((connected f css ≡ []) × (known f css ≡ false))
      ⊎ ((connected f css ≡ f ∷ []) × (known f css ≡ true))
unfolding connected known
connected_lem f [] = inl (refl, refl)
connected_lem f (cs ∷ css) = elim (Bool-cases (eid_eq cs f)) [
  | inl same ↦
      let e = eid_eq_sound cs f same in
      inr (
        rw same (subst (λ x. x ∷ [] ≡ f ∷ []) (sym e) refl),
        subst (λ x. (eid_eq f x || known f css) ≡ true) (sym e) (rw (eid_eq_refl f) refl),
      )
  | inr other ↦
      let different = eid_eq_sym cs f other in
      elim (connected_lem f css) [
        | inl (nobody, unknown') ↦ inl (rw other nobody, rw different unknown')
        | inr (one, known') ↦ inr (rw other one, rw different known')
      ]
]

hop_by-IsHop :
    (s : Dtlsr) (senders : List EndpointId) (recipient : EndpointId) (o : Option EndpointId)
    → s.routing_table recipient ≡ o
    → IsHop s senders recipient (hop_by senders o)
unfolding hop_by hop_to
hop_by-IsHop s senders recipient none h = unknown h
hop_by-IsHop s senders recipient (some f) h = elim (connected_lem f senders) [
  | inl (nobody, out) ↦ rw nobody (unconnected f h out)
  | inr (one, there) ↦ rw one (one_hop f h there)
]

-- The sender for a bundle that is no broadcast is the one that the routing table names for its destination, if
-- it is connected, and then the bundle is deleted afterwards; if the table names none, or one that is
-- not connected, there is no sender and the bundle stays.
pub next_hop-IsHop :
    (s : Dtlsr) (senders : List EndpointId) (recipient : EndpointId)
    → IsHop s senders recipient (next_hop s senders recipient)
unfolding next_hop
next_hop-IsHop s senders recipient =
    hop_by-IsHop s senders recipient (s.routing_table recipient) refl
