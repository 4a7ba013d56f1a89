-- ===== src/Routing/Processing/Records.antt =====
-- processing.go: an administrative record is processed without a status report.
use dtn.Prelude.{
  ℕ, ◌≡◌, refl, ap, sym, ◌∙◌, some, Bool, true, false, ok, ◌>>=◌, >>=-cong, if◌then◌else◌,
}
use dtn.Bpv7.Errors.{Result}
use dtn.Bpv7.Flags.{status_request_forward, status_request_delivery}
use dtn.Bpv7.Endpoint.{dtn_none, eid_eq}
use dtn.Bpv7.Block.{hop_count_code}
use dtn.Bpv7.Bundle.{Bundle, find_block, is_lifetime_exceeded}
use dtn.Routing.Descriptor.{Descriptor, purge_constraints, descriptor_of_bundle, add_constraint}
use dtn.Routing.IdKeeper.{update, with_sequence}
use dtn.Routing.Core.{Choice, World, has_endpoint, sender_for_destination}
use dtn.Routing.Processing.Blocks.{
  count_hop, uncount_hop, update_age, set_previous_node, age_expired, is_administrative_record,
}
use dtn.Routing.Processing.{
  deliver_locally, local_delivery, dispatch_bundle, dispatching, transmit_updated, transmit,
  send_bundle_with, deliver,
}
use dtn.Routing.Processing.Forwarding.{
  choose, send_all, report_if, bundle_deletion, after_sending, transmit_to_peers,
  forward_unexceeded, forward,
}
use dtn.Routing.Processing.Reports.{keep, check_administrative_record}
use dtn.Routing.Processing.State.{
  Node, Sending, in_memory, forwarded_bundle, no_information, lifetime_expired, hop_limit_exceeded,
  delivered_bundle,
}
use dtn.Routing.Processing.Primary.{
  count_hop-SamePrimary, uncount_hop-SamePrimary, update_age-SamePrimary,
  set_previous_node-SamePrimary, KeepsPrimary, admin_kept, if-cong, descriptor_bundle-here,
  send_all-SamePrimary, choose-SamePrimary,
}

module _ {S : Type 0} (node : Node S) (keeps : KeepsPrimary node.algorithm) where
  open node use {core, now}

  -- The parts of transmit_to_peers behind the choice and behind the transmissions.
  abbrev unsent : World S → Choice S → Sending S
  unsent w c = record { any_sent = false; world = in_memory w c.memory; bundle = c.bundle }

  abbrev after_all :
      (Descriptor → Bundle → ℕ → ℕ → World S → Result (World S))
      → Descriptor
      → Choice S
      → Sending S
      → Result (World S)
  after_all report d c s =
      uncount_hop s.bundle (find_block hop_count_code s.bundle.canonical_blocks) >>= λ b'.
      after_sending node report d c.delete_afterwards (record s { bundle = b' })

  abbrev with_choice :
      (Descriptor → Bundle → ℕ → ℕ → World S → Result (World S))
      → Descriptor
      → World S
      → Choice S
      → Result (World S)
  with_choice report d w c = send_all node d c.chosen (unsent w c) >>= after_all report d c

  -- Two ways to send status reports that agree on administrative records.
  module _ (report report' : Descriptor → Bundle → ℕ → ℕ → World S → Result (World S))
      (agree : (d : Descriptor) (b : Bundle) (position reason : ℕ) (w : World S)
        → is_administrative_record b ≡ true
        → report d b position reason w ≡ report' d b position reason w) where
    report_if-agree :
        (flag : ℕ) (d : Descriptor) (b : Bundle) (position reason : ℕ) (w : World S)
        → is_administrative_record b ≡ true
        → report_if node report flag d b position reason w
          ≡ report_if node report' flag d b position reason w
    unfolding report_if
    report_if-agree flag d b position reason w admin = rw (agree d b position reason w admin) refl

    deletion-agree :
        (d : Descriptor) (b : Bundle) (reason : ℕ) (w : World S)
        → is_administrative_record b ≡ true
        → bundle_deletion node report d b reason w ≡ bundle_deletion node report' d b reason w
    unfolding bundle_deletion
    deletion-agree d b reason w admin =
        ap (λ r. r >>= λ w'. keep node (purge_constraints d) b w')
          (report_if-agree _ d b _ reason w admin)

    after_sending-agree :
        (d : Descriptor) (delete_afterwards : Bool) (s : Sending S)
        → is_administrative_record s.bundle ≡ true
        → after_sending node report d delete_afterwards s
          ≡ after_sending node report' d delete_afterwards s
    unfolding after_sending
    after_sending-agree d delete_afterwards s admin =
        rw
          (report_if-agree status_request_forward d s.bundle forwarded_bundle no_information s.world
            admin)
          refl

    transmit_to_peers-agree :
        (d : Descriptor) (b : Bundle) (w : World S)
        → is_administrative_record b ≡ true
        → transmit_to_peers node report d b w ≡ transmit_to_peers node report' d b w
    unfolding transmit_to_peers
    transmit_to_peers-agree d b w admin =
        >>=-cong (set_previous_node core.node_id b _) _ _ (λ b1 e1.
          let admin1 = admin_kept b b1 (set_previous_node-SamePrimary _ b _ e1) admin in
          let direct = sender_for_destination core.senders b1.primary_block.destination in
          >>=-cong (choose node d b1 w direct) (with_choice report d w) (with_choice report' d w)
            (λ c e2.
              let admin2 =
                admin_kept b1 c.bundle (choose-SamePrimary node keeps d b1 w direct e2) admin1 in
              >>=-cong (send_all node d c.chosen (unsent w c)) (after_all report d c)
                (after_all report' d c)
                (λ s e3.
                  let admin3 =
                    admin_kept c.bundle s.bundle
                      (send_all-SamePrimary node keeps d c.chosen (unsent w c) e3) admin2 in
                  >>=-cong
                    (uncount_hop s.bundle (find_block hop_count_code s.bundle.canonical_blocks)) _ _
                    (λ b4 e4.
                      after_sending-agree d c.delete_afterwards (record s { bundle = b4 })
                        (admin_kept s.bundle b4 (uncount_hop-SamePrimary s.bundle _ e4) admin3)))))

    forward_unexceeded-agree :
        (d : Descriptor) (b : Bundle) (w : World S)
        → is_administrative_record b ≡ true
        → forward_unexceeded node report d b w ≡ forward_unexceeded node report' d b w
    unfolding forward_unexceeded
    forward_unexceeded-agree d b w admin = >>=-cong (is_lifetime_exceeded now b) _ _ (λ expired _.
        if-cong expired _ _ _ _ (deletion-agree d b lifetime_expired w admin) (
          >>=-cong (update_age now d.received_at b _) _ _ (λ (b', age) e.
            let admin' = admin_kept b b' (update_age-SamePrimary now d.received_at b _ e) admin in
            if-cong (age_expired b' age) _ _ _ _ (deletion-agree d b' lifetime_expired w admin')
              (transmit_to_peers-agree d b' w admin'))))

    forward-agree :
        (d : Descriptor) (b : Bundle) (w : World S)
        → is_administrative_record b ≡ true
        → forward node report d b w ≡ forward node report' d b w
    unfolding forward
    forward-agree d b w admin = >>=-cong (keep node _ b w) _ _ (λ w1 _.
        >>=-cong (count_hop b _) _ _ (λ (b', exceeded) e.
          let admin' = admin_kept b b' (count_hop-SamePrimary b _ e) admin in
          if-cong exceeded _ _ _ _ (deletion-agree _ b' hop_limit_exceeded w1 admin')
            (forward_unexceeded-agree _ b' w1 admin')))

    deliver_locally-agree :
        (d : Descriptor) (b : Bundle) (w : World S)
        → is_administrative_record b ≡ true
        → deliver_locally node report d b w ≡ deliver_locally node report' d b w
    unfolding deliver_locally
    deliver_locally-agree d b w admin = >>=-cong (keep node _ b w) _ _ (λ w1 _.
        >>=-cong (deliver node _ b w1) _ _ (λ (d', w2) _.
          ap (λ r. r >>= λ w3. keep node (purge_constraints d') b w3)
            (report_if-agree status_request_delivery d' b delivered_bundle no_information w2
              admin)))

    local_delivery-agree :
        (d : Descriptor) (b : Bundle) (w : World S)
        → is_administrative_record b ≡ true
        → local_delivery node report d b w ≡ local_delivery node report' d b w
    unfolding local_delivery
    local_delivery-agree d b w admin =
        if-cong (is_administrative_record b) _ _ _ _
          (>>=-cong (check_administrative_record node b w) _ _ (λ (valid, w') _.
            if-cong valid _ _ _ _ (deliver_locally-agree d b w' admin)
              (deletion-agree d b no_information w' admin)))
          (deliver_locally-agree d b w admin)

    dispatch_bundle-agree :
        (d : Descriptor) (b : Bundle) (w : World S)
        → is_administrative_record b ≡ true
        → dispatch_bundle node report d w (ok b) ≡ dispatch_bundle node report' d w (ok b)
    unfolding dispatch_bundle
    dispatch_bundle-agree d b w admin =
        >>=-cong (has_endpoint core b.primary_block.destination) _ _ (λ own _.
          if-cong own _ _ _ _ (local_delivery-agree d b w admin) (forward-agree d b w admin))

    dispatching-agree :
        (d : Descriptor) (b : Bundle) (w : World S)
        → d.bndl ≡ some b
        → is_administrative_record b ≡ true
        → dispatching node report d w ≡ dispatching node report' d w
    unfolding dispatching
    dispatching-agree d b w here admin =
        >>=-cong (node.algorithm.dispatching_allowed w.memory d) _ _ (λ (allowed, m) _.
          let loaded_here = descriptor_bundle-here node m.store d b here in
          if-cong allowed _ _ _ _
            (ap (dispatch_bundle node report d (in_memory w m)) loaded_here
              ∙ dispatch_bundle-agree d b (in_memory w m) admin
              ∙ sym (ap (dispatch_bundle node report' d (in_memory w m)) loaded_here))
            refl)

    transmit_updated-agree :
        (d : Descriptor) (b : Bundle) (w : World S)
        → is_administrative_record b ≡ true
        → transmit_updated node report d b w ≡ transmit_updated node report' d b w
    unfolding transmit_updated add_constraint
    transmit_updated-agree d b w admin = >>=-cong (keep node _ b w) _ _ (λ w1 _.
        >>=-cong
          (if eid_eq b.primary_block.source_node dtn_none
            then ok true
            else has_endpoint core b.primary_block.source_node)
          _ _
          (λ own _.
            if-cong own _ _ _ _ (dispatching-agree _ b w1 refl admin)
              (deletion-agree _ b no_information w1 admin)))

    transmit-agree :
        (d : Descriptor) (b : Bundle) (w : World S)
        → is_administrative_record b ≡ true
        → transmit node report d b w ≡ transmit node report' d b w
    unfolding transmit update with_sequence is_administrative_record
    transmit-agree d b w admin = transmit_updated-agree d _ _ admin

    pub send_bundle_with-agree :
        (b : Bundle) (w : World S)
        → is_administrative_record b ≡ true
        → send_bundle_with node report b w ≡ send_bundle_with node report' b w
    unfolding send_bundle_with
    send_bundle_with-agree b w admin =
        >>=-cong (descriptor_of_bundle node.path node.fails now w.memory.store b) _ _ (λ (d, st) _.
          >>=-cong (node.algorithm.notify_new_bundle _ d b) _ _ (λ m _. transmit-agree d b _ admin))
