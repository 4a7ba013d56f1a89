-- ===== src/Routing/Dtlsr/Handlers.antt =====
-- algorithm_dtlsr.go: what processing calls. The properties named routing/dtlsr/sent are those that Epidemic
-- names sent. `metadata` gives the peer data of a bundle's DTLSRBlock, if it has one.
use dtn.Prelude.{
  ℕ, [], ◌∷◌, ◌++◌, Option, none, some, Bool, true, false, ok, panic, ◌>>=◌, if◌then◌else◌,
}
use dtn.Bpv7.Errors.{Result}
use dtn.Bpv7.Endpoint.{EndpointId, eid_eq}
use dtn.Bpv7.Block.{CanonicalBlock, previous_node, previous_node_code}
use dtn.Bpv7.Bundle.{Bundle, BundleId, find_block}
use dtn.Storage.{BundleItem}
use dtn.Routing.Descriptor.{Properties, Descriptor, item_of}
use dtn.Routing.Core.{Core, Memory, Choice, Algorithm}
use dtn.Routing.Epidemic.{filter_clas, sent_eids, with_sent, updated}
use dtn.Routing.Dtlsr.{PeerData, Dtlsr, note_data, next_hop}

module _ (path : BundleId → ℕ) (fails : ℕ → Bool) (core : Core)
    (metadata : Bundle → Option PeerData) (broadcast_address : EndpointId) where
  unfoldable pub note_metadata : Dtlsr → Option PeerData → Dtlsr
  note_metadata s none = s
  note_metadata s (some d) = note_data s d

  note_sender : Memory Dtlsr → BundleItem Properties → Option CanonicalBlock → Result (Memory Dtlsr)
  note_sender m bi none = ok m
  note_sender m bi (some cb) = elim cb.value [
    | previous_node e ↦ updated path fails core m (with_sent bi (sent_eids bi ++ e ∷ []))
    | _ ↦ panic
  ]

  note_item : Memory Dtlsr → Bundle → Option (BundleItem Properties) → Result (Memory Dtlsr)
  note_item m b none = ok m
  note_item m b (some bi) = note_sender m bi (find_block previous_node_code b.canonical_blocks)

  unfoldable pub notify_new_bundle : Memory Dtlsr → Descriptor → Bundle → Result (Memory Dtlsr)
  unfolding note_item note_sender
  notify_new_bundle m d b =
      let m' = record m { state = note_metadata m.state (metadata b) } in
      note_item m' b (item_of path fails m'.store d.id)

  relay_item : Memory Dtlsr → Bundle → Option (BundleItem Properties) → Result (Choice Dtlsr)
  relay_item m b none = ok record { chosen = []; delete_afterwards = false; memory = m; bundle = b }
  relay_item m b (some bi) =
      let (css, sent) = filter_clas (sent_eids bi) core.senders in
      updated path fails core m (with_sent bi sent) >>= λ m'.
      ok record { chosen = css; delete_afterwards = false; memory = m'; bundle = b }

  -- A broadcast goes to all peers that have not had it, any other bundle to the next hop of the table.
  unfoldable pub sender_for_bundle : Memory Dtlsr → Descriptor → Bundle → Result (Choice Dtlsr)
  unfolding relay_item
  sender_for_bundle m d b =
      let (css, delete) = next_hop m.state core.senders b.primary_block.destination in
      if eid_eq b.primary_block.destination broadcast_address
      then relay_item m b (item_of path fails m.store d.id)
      else ok record { chosen = css; delete_afterwards = delete; memory = m; bundle = b }

  abbrev pub dtlsr : Algorithm Dtlsr
  dtlsr = record {
    notify_new_bundle = notify_new_bundle;
    dispatching_allowed = λ m d. ok (true, m);
    sender_for_bundle = sender_for_bundle;
    report_failure = λ m d peer b. ok (m, b);
  }
