-- ===== src/Routing/Processing.antt =====
-- processing.go, and the case of a received bundle in the handler of core.go: how a node processes a
-- bundle. While one bundle is processed the clocks stand still, and the transmissions of forward, which
-- are goroutines, run one after the other. There is no private key, so no signature is attached.
pub mod Blocks
pub mod State
pub mod Reports
pub mod Forwarding
pub mod Known
pub mod Nesting
pub mod Primary
pub mod Records
pub mod Retention
use dtn.Prelude.{
  ℕ, zero, suc, ◌+◌, ◌-◌, ◌/◌, ◌%◌, List, [], ◌∷◌, ◌++◌, reverse, Option, none, some, Bool, true,
  false, not, ◌&&◌, ◌||◌, ok, err, panic, ◌>>=◌, leb, ◌==◌, if◌then◌else◌,
}
use dtn.Prelude.Int.{ℤ, u64_mod}
use dtn.Bpv7.Errors.{Result, too_deep, not_registered}
use dtn.Bpv7.Flags.{
  has, administrative_record_payload, status_report_flag, status_request_reception,
  status_request_forward, status_request_delivery, status_request_deletion, delete_bundle,
  remove_block,
}
use dtn.Bpv7.Endpoint.{EndpointId, dtn_none, eid_eq}
use dtn.Bpv7.Block.{
  ExtensionBlock, CanonicalBlock, payload, previous_node, bundle_age, hop_count, HopCountBlock,
  hop_increment, hop_decrement, age_increment, new_canonical_block, payload_code,
  previous_node_code, bundle_age_code, hop_count_code, type_code, is_exceeded,
}
use dtn.Bpv7.Bundle.{
  Bundle, BundleId, find_block, add_extension_block, is_lifetime_exceeded, contains,
  extension_block,
}
use dtn.Bpv7.Codec.{Cbor}
use dtn.Bpv7.AdministrativeRecord.{
  Booleans, StatusReport, new_status_report, status_informations, write_administrative_record,
  read_administrative_record,
}
use dtn.Bpv7.Builder.{
  eid, duration_text, builder, bundle_ctrl_flags, source, destination, creation_timestamp, lifetime,
  canonical, build,
}
use dtn.Storage.{Store, BundleItem, delete}
use dtn.Routing.IdKeeper.{IdKeeper, update}
use dtn.Routing.Descriptor.{
  dispatch_pending, forward_pending, contraindicated, local_endpoint, has_constraints, Properties,
  no_properties, Descriptor, add_constraint, remove_constraint, purge_constraints, sync_dropped,
  sync, item_of, descriptor_of_bundle, descriptor_bundle,
}
use dtn.Routing.Core.{
  Core, Memory, Choice, Algorithm, Effect, transmitted, failed, delivered, World, has_endpoint,
  bag_has_endpoint, sender_for_destination,
}
use dtn.Routing.Processing.Blocks.{
  count_hop, uncount_hop, update_age, age_expired, set_previous_node, is_administrative_record,
}
use dtn.Routing.Processing.State.{
  no_information, lifetime_expired, block_unsupported, hop_limit_exceeded, received_bundle,
  forwarded_bundle, delivered_bundle, deleted_bundle, Sending, in_store, in_memory, record_effect,
  Node,
}
use dtn.Routing.Processing.Reports.{keep, check_administrative_record, send_status_report}
use dtn.Routing.Processing.Forwarding.{report_if, bundle_deletion, forward}

-- What the checks of unknown blocks leave: a deleted bundle, or the blocks that stay.
pub data Checked (S : Type 0) : Type 0 where
  removed : World S → Checked S
  remaining : List CanonicalBlock → World S → Checked S

abbrev known_type : Core → ℕ → Bool
known_type core code =
    contains
      (payload_code ∷ previous_node_code ∷ bundle_age_code ∷ hop_count_code ∷ core.registered_types)
      code

module _ {S : Type 0} (node : Node S) where
  open node use {
    cbor, booleans, alloc_limit, path, fails, parse, now, dtn_now, core, algorithm, sends,
  }

  -- AgentManager.Deliver; the error that no agent is registered is only logged. The constraints are a
  -- map that the descriptors share.
  unfoldable pub deliver : Descriptor → Bundle → World S → Result (Descriptor × World S)
  deliver d b w =
      let d' = remove_constraint local_endpoint d in
      let given = λ (s : Store Properties). record_effect (in_store w s) (delivered b) in
      let synchronized : Result (Descriptor × World S) =
        elim (sync path fails w.memory.store (record d' { bndl = some b })) [
          | ok s ↦ ok (d', given s)
          | err e ↦ ok (d', w)
          | panic ↦ panic
        ] in
      if bag_has_endpoint core.agents b.primary_block.destination then synchronized else ok (d, w)

  -- Every function below that can send a status report takes SendStatusReport as its argument.
  module _ (report : Descriptor → Bundle → ℕ → ℕ → World S → Result (World S)) where
    unfoldable pub deliver_locally : Descriptor → Bundle → World S → Result (World S)
    deliver_locally d b w = do
      let d' = add_constraint local_endpoint d
      w ← keep node d' b w
      (d'', w) ← deliver d' b w
      w ← report_if node report status_request_delivery d'' b delivered_bundle no_information w
      keep node (purge_constraints d'') b w

    unfoldable pub local_delivery : Descriptor → Bundle → World S → Result (World S)
    local_delivery d b w =
        if is_administrative_record b
        then (check_administrative_record node b w >>= λ (valid, w').
            if valid
            then deliver_locally d b w'
            else bundle_deletion node report d b no_information w')
        else deliver_locally d b w

    unfoldable pub dispatch_bundle : Descriptor → World S → Result Bundle → Result (World S)
    dispatch_bundle d w (ok b) = has_endpoint core b.primary_block.destination >>= λ own.
        if own then local_delivery d b w else forward node report d b w
    dispatch_bundle d w (err e) = ok w
    dispatch_bundle d w panic = panic

    unfoldable pub dispatching : Descriptor → World S → Result (World S)
    unfolding dispatch_bundle
    dispatching d w = do
      (allowed, m) ← algorithm.dispatching_allowed w.memory d
      let w' = in_memory w m
      if allowed then dispatch_bundle d w' (descriptor_bundle path fails now m.store d) else ok w'

    -- The checks of the blocks in front of the kept ones, from the last one on.
    unfoldable pub check_blocks :
        Descriptor
        → Bundle
        → List CanonicalBlock
        → List CanonicalBlock
        → World S
        → Result (Checked S)
    check_blocks d b [] kept w = ok (remaining kept w)
    check_blocks d b (cb ∷ cbs) kept w =
        let here = record b { canonical_blocks = reverse cbs ++ (cb ∷ kept) } in
        let next = λ (w : World S). check_blocks d b cbs (cb ∷ kept) w in
        let unknown =
          (if has cb.block_control_flags status_report_flag
            then report d here received_bundle block_unsupported w
            else ok w)
          >>= λ w.
              if has cb.block_control_flags delete_bundle
              then (bundle_deletion node report d here block_unsupported w >>= λ w'.
                  ok (removed w'))
              else if has cb.block_control_flags remove_block
              then check_blocks d b cbs kept w
              else next w in
        if known_type core (type_code cb) then next w else unknown

    unfoldable pub dispatch_checked : Descriptor → Bundle → Checked S → Result (World S)
    dispatch_checked d b (removed w) = ok w
    dispatch_checked d b (remaining kept w) =
        let b' = record b { canonical_blocks = kept } in
        let d' = record d { bndl = some b' } in
        algorithm.notify_new_bundle w.memory d' b' >>= λ m. dispatching d' (in_memory w m)

    unfoldable pub receive_new : Descriptor → Bundle → World S → Result (World S)
    receive_new d b w = do
      w ← keep node d b w
      w ← report_if node report status_request_reception d b received_bundle no_information w
      checked ← check_blocks d b (reverse b.canonical_blocks) [] w
      dispatch_checked d b checked

    -- receive
    unfoldable pub receive : Descriptor → Bundle → World S → Result (World S)
    unfolding receive_new dispatch_checked
    receive d b w =
        if has_constraints d.pending
        then ok w
        else receive_new (add_constraint dispatch_pending d) b w

    -- The case of a received bundle in handler; `by` is the endpoint of the receiving CLA.
    unfoldable pub handle_received : EndpointId → Bundle → World S → Result (World S)
    handle_received by b w = do
      (d, s) ← descriptor_of_bundle path fails now w.memory.store b
      let d' = record d { held_by = by }
      w ← keep node d' b (in_store w s)
      receive d' b w

    -- transmit, after the identifier of the bundle was updated.
    unfoldable pub transmit_updated : Descriptor → Bundle → World S → Result (World S)
    transmit_updated d b w = do
      let d' = add_constraint dispatch_pending (record d { bndl = some b })
      w ← keep node d' b w
      own ←
          if eid_eq b.primary_block.source_node dtn_none
          then ok true
          else has_endpoint core b.primary_block.source_node
      if own then dispatching d' w else bundle_deletion node report d' b no_information w

    -- transmit; the descriptor keeps the ID that the bundle had before.
    unfoldable pub transmit : Descriptor → Bundle → World S → Result (World S)
    unfolding transmit_updated
    transmit d b w =
        let (keeper, b') = update dtn_now w.keeper b in
        transmit_updated d b' (record w { keeper = keeper })

    -- SendBundle, without a private key.
    unfoldable pub send_bundle_with : Bundle → World S → Result (World S)
    send_bundle_with b w = do
      (d, s) ← descriptor_of_bundle path fails now w.memory.store b
      m ← algorithm.notify_new_bundle (record w.memory { store = s }) d b
      transmit d b (in_memory w m)

  -- SendBundle, with at most this many calls inside one another.
  unfoldable pub send_bundle : ℕ → Bundle → World S → Result (World S)
  send_bundle zero b w = err too_deep
  send_bundle (suc depth) b w = send_bundle_with (send_status_report node (send_bundle depth)) b w
