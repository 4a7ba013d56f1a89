-- ===== src/Routing/Mule.antt =====
-- algorithm_sensornetwork.go: an algorithm over another one, which keeps bundles from sensor nodes.
-- `is_sensor` tells if the text of an endpoint matches the configured regular expression.
pub mod Filtering
mod Tests
use dtn.Prelude.{
  ℕ, List, [], ◌∷◌, reverse, some, Bool, true, false, not, ◌&&◌, ◌||◌, ok, ◌>>=◌, if◌then◌else◌,
}
use dtn.Bpv7.Errors.{Result}
use dtn.Bpv7.Endpoint.{EndpointId}
use dtn.Bpv7.Uri.{same_node}
use dtn.Bpv7.Bundle.{Bundle}
use dtn.Routing.Descriptor.{Descriptor}
use dtn.Routing.Core.{Memory, Choice, Algorithm}

-- What the loop has left of the senders.
pub record Left (S : Type 0) : Type 0 where
  pub kept : List EndpointId
  pub left_memory : Memory S
  pub left_bundle : Bundle

abbrev pub is_empty : List EndpointId → Bool
is_empty [] = true
is_empty (e ∷ es) = false

module _ {S : Type 0} (inner : Algorithm S) (is_sensor : EndpointId → Bool) where
  -- The code compares with the endpoint that received the bundle.
  unfoldable pub is_allowed : Descriptor → EndpointId → Bool
  is_allowed d cs = not (is_sensor cs) || same_node cs d.held_by

  exclude_sender : Descriptor → EndpointId → Left S → Result (Left S)
  exclude_sender d cs l = do
    (m, b) ←
        inner.report_failure l.left_memory (record d { bndl = some l.left_bundle }) cs l.left_bundle
    ok (record l { left_memory = m; left_bundle = b })

  -- The loop, which begins at the last sender.
  unfoldable pub exclude_senders : Descriptor → List EndpointId → Left S → Result (Left S)
  unfolding exclude_sender
  exclude_senders d [] l = ok l
  exclude_senders d (cs ∷ css) l =
      let skipped = exclude_senders d css (record l { kept = cs ∷ l.kept }) in
      let excluded = exclude_sender d cs l >>= λ l'. exclude_senders d css l' in
      if is_allowed d cs then skipped else excluded

  unfoldable pub sender_for_bundle : Memory S → Descriptor → Bundle → Result (Choice S)
  sender_for_bundle m d b = do
    c ← inner.sender_for_bundle m d b
    l ←
        exclude_senders d (reverse c.chosen)
          (record { kept = []; left_memory = c.memory; left_bundle = c.bundle })
    ok record {
      chosen = l.kept;
      delete_afterwards = c.delete_afterwards && not (is_empty l.kept);
      memory = l.left_memory;
      bundle = l.left_bundle;
    }

  abbrev pub mule : Algorithm S
  mule = record inner { sender_for_bundle = sender_for_bundle }
