-- ===== src/Routing/Epidemic.antt =====
-- algorithm_epidemic.go, and filterCLAs of algorithm.go: flooding. The algorithm keeps its data in the
-- properties of the stored items, and has no state of its own.
pub mod Flooding
pub mod Keeping
mod Tests
use dtn.Prelude.{
  ℕ, List, [], ◌∷◌, ◌++◌, Option, none, some, Bool, true, false, ok, err, panic, ◌>>=◌,
  if◌then◌else◌,
}
use mathlib.Core.Option
use dtn.Bpv7.Errors.{Result}
use dtn.Bpv7.Endpoint.{EndpointId}
use dtn.Bpv7.Block.{CanonicalBlock, previous_node, previous_node_code}
use dtn.Bpv7.Bundle.{Bundle, BundleId, find_block}
use dtn.Storage.{Error, BundleItem, Store, update}
use dtn.Routing.Spray.{known, remove_first}
use dtn.Routing.Descriptor.{Properties, no_properties, Descriptor, dropped, item_of, or_else}
use dtn.Routing.Core.{Core, Memory, Choice, Algorithm, has_endpoint}

-- The loop of filterCLAs: the senders without the bundle, and all peers that have it then.
unfoldable pub filter_clas : List EndpointId → List EndpointId → List EndpointId × List EndpointId
filter_clas sent [] = ([], sent)
filter_clas sent (cs ∷ css) =
    let skipped = filter_clas sent css in
    let (filtered, sent') = filter_clas (sent ++ cs ∷ []) css in
    if known cs sent then skipped else (cs ∷ filtered, sent')

unfoldable pub sent_eids : BundleItem Properties → List EndpointId
sent_eids bi = or_else bi.properties.sent []

abbrev pub with_sent : BundleItem Properties → List EndpointId → BundleItem Properties
with_sent bi sent = record bi { properties = record bi.properties { sent = some sent } }

module _ (path : BundleId → ℕ) (fails : ℕ → Bool) (core : Core) where
  abbrev pub item : Memory (Unit {0}) → Descriptor → Option (BundleItem Properties)
  item m d = item_of path fails m.store d.id

  -- An error of Update is only logged.
  unfoldable pub updated : {S : Type 0} → Memory S → BundleItem Properties → Result (Memory S)
  updated m bi = do
    s ← dropped m.store (update no_properties path fails m.store bi)
    ok (record m { store = s })

  note_previous :
      Memory (Unit {0}) → BundleItem Properties → Option CanonicalBlock → Result (Memory (Unit {0}))
  note_previous m bi none = ok m
  note_previous m bi (some cb) = elim cb.value [
    | previous_node e ↦
        if known e (sent_eids bi) then ok m else updated m (with_sent bi (sent_eids bi ++ e ∷ []))
    | _ ↦ panic
  ]

  note_destination :
      Memory (Unit {0})
      → BundleItem Properties
      → Bundle
      → Option EndpointId
      → Result (Memory (Unit {0}))
  note_destination m bi b (some e) =
      note_previous m bi (find_block previous_node_code b.canonical_blocks)
  note_destination m bi b none =
      let bi' = record bi {
        properties = record bi.properties { destination = some b.primary_block.destination };
      } in
      updated m bi' >>= λ m'.
      note_previous m' bi' (find_block previous_node_code b.canonical_blocks)

  notify_item :
      Memory (Unit {0}) → Bundle → Option (BundleItem Properties) → Result (Memory (Unit {0}))
  notify_item m b none = ok m
  notify_item m b (some bi) = note_destination m bi b bi.properties.destination

  unfoldable pub notify_new_bundle :
      Memory (Unit {0}) → Descriptor → Bundle → Result (Memory (Unit {0}))
  unfolding notify_item note_destination note_previous
  notify_new_bundle m d b = notify_item m b (item m d)

  unfoldable pub clas_for_item :
      Memory (Unit {0})
      → Bool
      → Option (BundleItem Properties)
      → Result (List EndpointId × Memory (Unit {0}))
  clas_for_item m update_db none = ok ([], m)
  clas_for_item m update_db (some bi) =
      let (css, sent) = filter_clas (sent_eids bi) core.senders in
      if update_db then (updated m (with_sent bi sent) >>= λ m'. ok (css, m')) else ok (css, m)

  -- clasForBundle; its flag to delete the bundle is always false.
  unfoldable pub clas_for_bundle :
      Memory (Unit {0}) → Descriptor → Bool → Result (List EndpointId × Memory (Unit {0}))
  unfolding clas_for_item
  clas_for_bundle m d update_db = clas_for_item m update_db (item m d)

  for_this_node : Option EndpointId → Result Bool
  for_this_node none = ok false
  for_this_node (some e) = has_endpoint core e

  mark_pending :
      Memory (Unit {0})
      → BundleItem Properties
      → List EndpointId
      → Result (Bool × Memory (Unit {0}))
  mark_pending m bi (cs ∷ css) = ok (true, m)
  mark_pending m bi [] = updated m (record bi { pending = true }) >>= λ m'. ok (false, m')

  allowed_item :
      Memory (Unit {0})
      → Descriptor
      → Option (BundleItem Properties)
      → Result (Bool × Memory (Unit {0}))
  allowed_item m d none = ok (true, m)
  allowed_item m d (some bi) = do
    own ← for_this_node bi.properties.destination
    (css, m') ← clas_for_bundle m d false
    if own then ok (true, m) else mark_pending m' bi css

  unfoldable pub dispatching_allowed :
      Memory (Unit {0}) → Descriptor → Result (Bool × Memory (Unit {0}))
  unfolding allowed_item for_this_node mark_pending
  dispatching_allowed m d = allowed_item m d (item m d)

  unfoldable pub sender_for_bundle :
      Memory (Unit {0}) → Descriptor → Bundle → Result (Choice (Unit {0}))
  sender_for_bundle m d b = do
    (css, m') ← clas_for_bundle m d true
    ok record { chosen = css; delete_afterwards = false; memory = m'; bundle = b }

  unfoldable pub failure_at :
      Memory (Unit {0}) → EndpointId → Option (BundleItem Properties) → Result (Memory (Unit {0}))
  failure_at m peer none = ok m
  failure_at m peer (some bi) = updated m (with_sent bi (remove_first peer (sent_eids bi)))

  unfoldable pub report_failure :
      Memory (Unit {0}) → Descriptor → EndpointId → Bundle → Result (Memory (Unit {0}) × Bundle)
  unfolding failure_at
  report_failure m d peer b = do m' ← failure_at m peer (item m d); ok (m', b)

  abbrev pub epidemic : Algorithm (Unit {0})
  epidemic = record {
    notify_new_bundle = notify_new_bundle;
    dispatching_allowed = dispatching_allowed;
    sender_for_bundle = sender_for_bundle;
    report_failure = report_failure;
  }
