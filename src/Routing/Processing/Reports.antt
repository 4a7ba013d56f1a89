-- ===== src/Routing/Processing/Reports.antt =====
-- core.go and processing.go: the bundle of a status report, and what a received report does.
use dtn.Prelude.{
  ℕ, List, [], ◌∷◌, Option, none, some, Bool, true, false, ◌||◌, ok, err, panic, ◌>>=◌, ◌==◌,
  if◌then◌else◌,
}
use dtn.Bpv7.Errors.{Result, not_registered}
use dtn.Bpv7.Flags.{administrative_record_payload}
use dtn.Bpv7.Endpoint.{EndpointId, dtn_none, eid_eq}
use dtn.Bpv7.Block.{CanonicalBlock, payload, new_canonical_block, payload_code}
use dtn.Bpv7.Bundle.{Bundle, BundleId, find_block}
use dtn.Bpv7.AdministrativeRecord.{
  StatusReport, new_status_report, status_informations, write_administrative_record,
  read_administrative_record,
}
use dtn.Bpv7.Builder.{
  eid, duration_text, builder, bundle_ctrl_flags, source, destination, creation_timestamp, lifetime,
  canonical, build,
}
use dtn.Storage.{Store, BundleItem, delete}
use dtn.Routing.Descriptor.{Properties, no_properties, Descriptor, sync_dropped, item_of}
use dtn.Routing.Core.{World, has_endpoint}
use dtn.Routing.Processing.Blocks.{is_administrative_record}
use dtn.Routing.Processing.State.{delivered_bundle, in_store, Node}

sixty_minutes : List ℕ
sixty_minutes = b'6' ∷ b'0' ∷ b'm' ∷ []

module _ {S : Type 0} (node : Node S) where
  open node use {
    cbor, booleans, alloc_limit, path, fails, parse, now, dtn_now, core, algorithm, sends,
  }

  -- `_ = bp.Sync()`, for a descriptor of this bundle.
  unfoldable pub keep : Descriptor → Bundle → World S → Result (World S)
  keep d b w = do
    s ← sync_dropped path fails w.memory.store (record d { bndl = some b })
    ok (in_store w s)

  -- The source of a report: an endpoint that is registered.
  unfoldable pub report_source : Descriptor → Result EndpointId
  report_source d = do
    let receiver = if eid_eq d.held_by dtn_none then core.node_id else d.held_by
    registered ← has_endpoint core receiver
    if registered || eid_eq receiver core.node_id then ok receiver else err not_registered

  -- The bundle of a status report.
  unfoldable pub report_bundle : Descriptor → Bundle → ℕ → ℕ → Result Bundle
  unfolding report_source sixty_minutes
  report_bundle d b position reason = do
    bytes ← write_administrative_record cbor booleans (new_status_report b position reason dtn_now)
    receiver ← report_source d
    let to =
        destination
          (source (bundle_ctrl_flags builder administrative_record_payload) (eid receiver))
          (eid b.primary_block.report_to)
    build now (
        canonical (lifetime parse (creation_timestamp to dtn_now) (duration_text sixty_minutes))
          (new_canonical_block 1 0 (payload bytes)))

  -- An error is only logged.
  unfoldable pub send_or_log :
      (Bundle → World S → Result (World S)) → World S → Result Bundle → Result (World S)
  send_or_log send w (ok out) = send out w
  send_or_log send w (err e) = ok w
  send_or_log send w panic = panic

  -- The loop of inspectStatusReport: the bundle of the report is deleted where it was delivered.
  unfoldable pub delete_delivered : BundleId → List ℕ → Store Properties → Store Properties
  delete_delivered bid [] s = s
  delete_delivered bid (sip ∷ sips) s =
      delete_delivered bid sips
        (if sip == delivered_bundle then delete no_properties path fails s bid else s)

  inspect_item : List ℕ → World S → Option (BundleItem Properties) → World S
  inspect_item sips w none = w
  inspect_item sips w (some bi) = in_store w (delete_delivered bi.b_id sips w.memory.store)

  -- inspectStatusReport; without information nothing is deleted.
  unfoldable pub inspect_status_report : StatusReport → World S → World S
  unfolding inspect_item
  inspect_status_report sr w =
      inspect_item (status_informations sr) w (item_of path fails w.memory.store sr.ref_bundle)

  inspect_record : World S → Result (StatusReport × List ℕ) → Result (Bool × World S)
  inspect_record w (ok (sr, rest)) = ok (true, inspect_status_report sr w)
  inspect_record w (err e) = ok (false, w)
  inspect_record w panic = panic

  inspect_payload : World S → Option CanonicalBlock → Result (Bool × World S)
  inspect_payload w none = ok (false, w)
  inspect_payload w (some cb) = elim cb.value [
    | payload octets ↦
        inspect_record w (read_administrative_record cbor booleans alloc_limit octets)
    | _ ↦ panic
  ]

  -- checkAdministrativeRecord
  unfoldable pub check_administrative_record : Bundle → World S → Result (Bool × World S)
  unfolding inspect_payload inspect_record
  check_administrative_record b w =
      if is_administrative_record b
      then inspect_payload w (find_block payload_code b.canonical_blocks)
      else ok (false, w)

  -- SendStatusReport; its argument is SendBundle.
  unfoldable pub send_status_report :
      (Bundle → World S → Result (World S))
      → Descriptor
      → Bundle
      → ℕ
      → ℕ
      → World S
      → Result (World S)
  unfolding send_or_log
  send_status_report send d b position reason w =
      if is_administrative_record b
      then ok w
      else has_endpoint core b.primary_block.report_to >>= λ own.
          if own then ok w else send_or_log send w (report_bundle d b position reason)
