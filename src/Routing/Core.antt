-- ===== src/Routing/Core.antt =====
-- core.go and algorithm.go: the parts of a node, and the interface of a routing algorithm. A convergence
-- sender or receiver stands for its endpoint. The endpoints and senders do not change while one bundle is
-- processed.
use dtn.Prelude.{
  ℕ, List, [], ◌∷◌, none, some, Bool, true, false, ◌||◌, ok, panic, ◌>>=◌, bytes_eq, if◌then◌else◌,
}
use dtn.Bpv7.Errors.{Result}
use dtn.Bpv7.Endpoint.{EndpointId, eid_eq}
use dtn.Bpv7.Uri.{authority, same_node}
use dtn.Bpv7.Bundle.{Bundle}
use dtn.Storage.{Store}
use dtn.Routing.IdKeeper.{IdKeeper}
use dtn.Routing.Descriptor.{Properties, Descriptor}

pub record Core : Type 0 where
  pub node_id : EndpointId
  pub inspect_all_bundles : Bool
  -- The endpoints of the application agents, of the CLAs' listeners, and of the receivers and peers.
  pub agents : List EndpointId
  pub listeners : List EndpointId
  pub receivers : List EndpointId
  pub senders : List EndpointId
  -- The types of extension blocks that were registered besides the four of pkg/bpv7.
  pub registered_types : List ℕ

-- Without an EndpointType there is no authority to ask for.
eid_authority : EndpointId → Result (List ℕ)
eid_authority none = panic
eid_authority (some e) = ok (authority e)

-- bagHasEndpoint
unfoldable pub bag_has_endpoint : List EndpointId → EndpointId → Bool
bag_has_endpoint [] e = false
bag_has_endpoint (x ∷ xs) e = eid_eq x e || bag_has_endpoint xs e

-- Manager.HasEndpoint of pkg/cla, which compares authorities alone.
unfoldable pub listener_has_endpoint : List EndpointId → EndpointId → Result Bool
unfolding eid_authority
listener_has_endpoint [] e = ok false
listener_has_endpoint (x ∷ xs) e = do
  own ← eid_authority x
  other ← eid_authority e
  let rest = listener_has_endpoint xs e
  if bytes_eq own other then ok true else rest

unfoldable pub same_node_as_one : List EndpointId → EndpointId → Bool
same_node_as_one [] e = false
same_node_as_one (x ∷ xs) e = same_node x e || same_node_as_one xs e

-- Core.HasEndpoint
unfoldable pub has_endpoint : Core → EndpointId → Result Bool
has_endpoint core e =
    if same_node core.node_id e || bag_has_endpoint core.agents e
    then ok true
    else listener_has_endpoint core.listeners e >>= λ listens.
        ok (listens || same_node_as_one core.receivers e)

-- Core.senderForDestination
unfoldable pub sender_for_destination : List EndpointId → EndpointId → List EndpointId
sender_for_destination [] e = []
sender_for_destination (x ∷ xs) e =
    let rest = sender_for_destination xs e in if same_node x e then x ∷ rest else rest

-- What a routing algorithm may change: the store, and its own state.
pub record Memory (S : Type 0) : Type 0 where
  pub store : Store Properties
  pub state : S

-- What SenderForBundle gives; the algorithm may change the bundle in memory.
pub record Choice (S : Type 0) : Type 0 where
  pub chosen : List EndpointId
  pub delete_afterwards : Bool
  pub memory : Memory S
  pub bundle : Bundle

-- The interface Algorithm, but for the reports on peers, which processing does not make.
pub record Algorithm (S : Type 0) : Type 0 where
  pub notify_new_bundle : Memory S → Descriptor → Bundle → Result (Memory S)
  pub dispatching_allowed : Memory S → Descriptor → Result (Bool × Memory S)
  pub sender_for_bundle : Memory S → Descriptor → Bundle → Result (Choice S)
  pub report_failure : Memory S → Descriptor → EndpointId → Bundle → Result (Memory S × Bundle)

-- What a node does that others see.
pub data Effect : Type 0 where
  transmitted failed : EndpointId → Bundle → Effect
  delivered : Bundle → Effect

pub record World (S : Type 0) : Type 0 where
  pub memory : Memory S
  pub keeper : IdKeeper
  -- The latest effect first.
  pub trace : List Effect
