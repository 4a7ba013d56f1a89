-- ===== src/Routing/Processing/Nesting.antt =====
-- processing.go and core.go: SendStatusReport calls SendBundle, which processes the report's bundle and
-- may call SendStatusReport again.
use dtn.Prelude.{ℕ, ◌≡◌, refl, ap, ◌∙◌, true, ok, err, panic, >>=-cong, >>=-eq-ok}
use dtn.Bpv7.Errors.{Result}
use dtn.Bpv7.Flags.{has}
use dtn.Bpv7.Bundle.{Bundle}
use dtn.Bpv7.AdministrativeRecord.{new_status_report, write_administrative_record}
use dtn.Bpv7.Builder.{
  builder, bundle_ctrl_flags, source, destination, creation_timestamp, parse_endpoint, set_from,
}
use dtn.Bpv7.Builder.Flags.{build-flags, canonical-flags, lifetime-flags}
use dtn.Routing.Descriptor.{Descriptor}
use dtn.Routing.Core.{World, has_endpoint}
use dtn.Routing.Processing.Blocks.{is_administrative_record}
use dtn.Routing.Processing.{send_bundle_with, send_bundle}
use dtn.Routing.Processing.Reports.{report_bundle, send_status_report, send_or_log, report_source}
use dtn.Routing.Processing.State.{Node}
use dtn.Routing.Processing.Primary.{KeepsPrimary, if-cong}
use dtn.Routing.Processing.Records.{send_bundle_with-agree}

module _ {S : Type 0} (node : Node S) (keeps : KeepsPrimary node.algorithm) where
  open node use {core, now}

  -- No status report is sent for an administrative record.
  report-of_record :
      (send send' : Bundle → World S → Result (World S)) (d : Descriptor) (b : Bundle)
      (position reason : ℕ) (w : World S)
      → is_administrative_record b ≡ true
      → send_status_report node send d b position reason w
        ≡ send_status_report node send' d b position reason w
  unfolding send_status_report
  report-of_record send send' d b position reason w admin = rw admin refl

  -- An administrative record is sent without another call of SendBundle.
  record-alone :
      (send send' : Bundle → World S → Result (World S)) (b : Bundle) (w : World S)
      → is_administrative_record b ≡ true
      → send_bundle_with node (send_status_report node send) b w
        ≡ send_bundle_with node (send_status_report node send') b w
  record-alone send send' b w admin =
      send_bundle_with-agree node keeps (send_status_report node send)
        (send_status_report node send') (report-of_record send send') b w admin

  -- The bundle of a status report is an administrative record.
  report_bundle-record :
      (d : Descriptor) (b : Bundle) (position reason : ℕ) {out : Bundle}
      → report_bundle node d b position reason ≡ ok out
      → is_administrative_record out ≡ true
  unfolding report_bundle creation_timestamp destination source set_from parse_endpoint
      bundle_ctrl_flags builder is_administrative_record has
  report_bundle-record d b position reason h =
      let (bytes, written, rest) =
        >>=-eq-ok
          (write_administrative_record node.cbor node.booleans
            (new_status_report b position reason node.dtn_now))
          _ h in
      let (receiver, found, built) = >>=-eq-ok (report_source node d) _ rest in
      let flags = build-flags now _ built ∙ canonical-flags _ _ ∙ lifetime-flags node.parse _ _ in
      rw flags refl

  -- Two ways to send bundles that agree on administrative records.
  module _ (send send' : Bundle → World S → Result (World S))
      (agree : (b : Bundle) (w : World S)
        → is_administrative_record b ≡ true
        → send b w ≡ send' b w) where
    send_or_log-agree :
        (w : World S) (r : Result Bundle)
        → ((out : Bundle) → r ≡ ok out → is_administrative_record out ≡ true)
        → send_or_log node send w r ≡ send_or_log node send' w r
    unfolding send_or_log
    send_or_log-agree w (ok out) h = agree out w (h out refl)
    send_or_log-agree w (err e) h = refl
    send_or_log-agree w panic h = refl

    report-agree :
        (d : Descriptor) (b : Bundle) (position reason : ℕ) (w : World S)
        → send_status_report node send d b position reason w
          ≡ send_status_report node send' d b position reason w
    unfolding send_status_report
    report-agree d b position reason w = if-cong (is_administrative_record b) _ _ _ _ refl (
        >>=-cong (has_endpoint core b.primary_block.report_to) _ _ (λ own _.
          if-cong own _ _ _ _ refl (
            send_or_log-agree w (report_bundle node d b position reason)
              (λ out. report_bundle-record d b position reason))))

  -- If the routing algorithm leaves the primary blocks of bundles as they are: SendBundle, which sends
  -- status reports by calling itself, needs one call inside another at most. Whatever stands for
  -- the calls inside that call, the result is that of at most two calls inside one another, for
  -- every bundle and every state of the node.
  pub send_bundle_depth :
      (send : Bundle → World S → Result (World S)) (b : Bundle) (w : World S)
      → send_bundle_with node
          (send_status_report node (send_bundle_with node (send_status_report node send)))
          b
          w
        ≡ send_bundle node 2 b w
  unfolding send_bundle
  send_bundle_depth send b w =
      ap (λ report. send_bundle_with node report b w)
        (λ i d b' position reason w'.
          report-agree (send_bundle_with node (send_status_report node send)) (send_bundle node 1)
            (record-alone send (send_bundle node 0)) d b' position reason w' i)
