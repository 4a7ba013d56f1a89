-- ===== src/Routing/Processing/Forwarding.antt =====
-- processing.go: forward with its parts, and the deletion of a bundle. The functions that can send a status
-- report take SendStatusReport as their argument.
use dtn.Prelude.{ℕ, List, [], ◌∷◌, some, Bool, true, false, ◌&&◌, ok, ◌>>=◌, if◌then◌else◌}
use dtn.Bpv7.Errors.{Result}
use dtn.Bpv7.Flags.{has, status_request_forward, status_request_deletion}
use dtn.Bpv7.Endpoint.{EndpointId}
use dtn.Bpv7.Block.{previous_node_code, bundle_age_code, hop_count_code}
use dtn.Bpv7.Bundle.{Bundle, find_block, is_lifetime_exceeded}
use dtn.Routing.Descriptor.{
  dispatch_pending, forward_pending, contraindicated, Descriptor, add_constraint, remove_constraint,
  purge_constraints,
}
use dtn.Routing.Core.{Choice, transmitted, failed, World, sender_for_destination}
use dtn.Routing.Processing.Blocks.{
  count_hop, uncount_hop, update_age, age_expired, set_previous_node, is_administrative_record,
}
use dtn.Routing.Processing.State.{
  no_information, lifetime_expired, hop_limit_exceeded, forwarded_bundle, deleted_bundle, Sending,
  in_memory, record_effect, Node,
}
use dtn.Routing.Processing.Reports.{keep, check_administrative_record}

module _ {S : Type 0} (node : Node S) where
  open node use {
    cbor, booleans, alloc_limit, path, fails, parse, now, dtn_now, core, algorithm, sends,
  }

  unfoldable pub bundle_contraindicated : Descriptor → Bundle → World S → Result (World S)
  bundle_contraindicated d b w = keep node (add_constraint contraindicated d) b w

  -- One goroutine of forward.
  unfoldable pub send_one : Descriptor → EndpointId → Sending S → Result (Sending S)
  send_one d peer s =
      let succeeded : Sending S = record s {
        any_sent = true;
        world = record_effect s.world (transmitted peer s.bundle);
      } in
      let reported =
        algorithm.report_failure s.world.memory (record d { bndl = some s.bundle }) peer s.bundle
        >>= λ (m, b). ok record s {
          world = record_effect (in_memory s.world m) (failed peer s.bundle);
          bundle = b;
        } in
      if sends s.world.trace peer s.bundle then ok succeeded else reported

  unfoldable pub send_all : Descriptor → List EndpointId → Sending S → Result (Sending S)
  send_all d [] s = ok s
  send_all d (peer ∷ peers) s = do s ← send_one d peer s; send_all d peers s

  -- The destination's own senders, or those of the algorithm.
  unfoldable pub choose : Descriptor → Bundle → World S → List EndpointId → Result (Choice S)
  choose d b w [] = algorithm.sender_for_bundle w.memory (record d { bndl = some b }) b
  choose d b w (cs ∷ css) =
      ok record { chosen = cs ∷ css; delete_afterwards = true; memory = w.memory; bundle = b }

  -- Every function below that can send a status report takes SendStatusReport as its argument.
  module _ (report : Descriptor → Bundle → ℕ → ℕ → World S → Result (World S)) where
    -- The report is only sent if the bundle asks for it.
    unfoldable pub report_if : ℕ → Descriptor → Bundle → ℕ → ℕ → World S → Result (World S)
    report_if flag d b position reason w =
        if has b.primary_block.bundle_control_flags flag then report d b position reason w else ok w

    unfoldable pub bundle_deletion : Descriptor → Bundle → ℕ → World S → Result (World S)
    bundle_deletion d b reason w = do
      w ← report_if status_request_deletion d b deleted_bundle reason w
      keep node (purge_constraints d) b w

    -- What forward does after all transmissions.
    unfoldable pub after_sending : Descriptor → Bool → Sending S → Result (World S)
    after_sending d delete_afterwards s =
        let b = s.bundle in
        let dropped_bundle = λ (w : World S). keep node (purge_constraints d) b w in
        let inspected = λ (w : World S). bundle_contraindicated d b w >>= λ w'.
        check_administrative_record node b w' >>= λ r. ok r.1 in
        if s.any_sent
        then (report_if status_request_forward d b forwarded_bundle no_information s.world >>= λ w.
            if delete_afterwards
            then dropped_bundle w
            else if core.inspect_all_bundles && is_administrative_record b
            then inspected w
            else bundle_contraindicated d b w)
        else bundle_contraindicated d b s.world

    -- forward from the choice of the senders on.
    unfoldable pub transmit_to_peers : Descriptor → Bundle → World S → Result (World S)
    unfolding choose after_sending
    transmit_to_peers d b w = do
      b ← set_previous_node core.node_id b (find_block previous_node_code b.canonical_blocks)
      c ← choose d b w (sender_for_destination core.senders b.primary_block.destination)
      s ←
          send_all d c.chosen
            (record { any_sent = false; world = in_memory w c.memory; bundle = c.bundle })
      b' ← uncount_hop s.bundle (find_block hop_count_code s.bundle.canonical_blocks)
      after_sending d c.delete_afterwards (record s { bundle = b' })

    -- forward from the check of the lifetime on.
    unfoldable pub forward_unexceeded : Descriptor → Bundle → World S → Result (World S)
    forward_unexceeded d b w = do
      expired ← is_lifetime_exceeded now b
      if expired
          then bundle_deletion d b lifetime_expired w
          else update_age now d.received_at b (find_block bundle_age_code b.canonical_blocks)
            >>= λ (b', age).
                if age_expired b' age
                then bundle_deletion d b' lifetime_expired w
                else transmit_to_peers d b' w

    unfoldable pub forward : Descriptor → Bundle → World S → Result (World S)
    forward d b w = do
      let d' = remove_constraint dispatch_pending (add_constraint forward_pending d)
      w ← keep node d' b w
      (b', exceeded) ← count_hop b (find_block hop_count_code b.canonical_blocks)
      if exceeded then bundle_deletion d' b' hop_limit_exceeded w else forward_unexceeded d' b' w
