-- ===== src/Bpv7/AdministrativeRecord.antt =====
-- administrative_record.go, administrative_record_status_report.go and the CBOR form of a BundleID in
-- bundle_id.go. The manager is the one of GetAdministrativeRecordManager, which knows status reports.
pub mod Ids
pub mod RoundTrip
pub mod Reports
pub mod Tests
use dtn.Prelude.{
  ℕ, zero, suc, ◌+◌, ◌≡◌, List, [], ◌∷◌, ◌++◌, Bool, true, false, ◌&&◌, ◌||◌, ok, err, panic, ◌>>=◌,
  ◌>>◌, guard, length, ◌==◌, leb, if◌then◌else◌,
}
use dtn.Bpv7.Errors.{Result, array_length, unknown_record_type, record_value}
use dtn.Bpv7.Flags.{has}
use dtn.Bpv7.Bundle.{Bundle, BundleId, bundle_id}
use dtn.Bpv7.Codec.{Cbor}
use dtn.Bpv7.Codec.Endpoint.{
  marshal_endpoint, unmarshal_endpoint, marshal_timestamp, unmarshal_timestamp,
}

-- ReadBoolean and WriteBoolean of the CBOR library.
pub record Booleans : Type 0 where
  pub write_boolean : Bool → List ℕ
  pub read_boolean : List ℕ → Result (Bool × List ℕ)

pub record BooleanLaws (booleans : Booleans) : Type 0 where
  pub boolean_back :
      (b : Bool) (rest : List ℕ)
      → booleans.read_boolean (booleans.write_boolean b ++ rest) ≡ ok (b, rest)

pub record BundleStatusItem : Type 0 where
  pub asserted : Bool
  pub time : ℕ
  pub status_requested : Bool

unfoldable pub new_bundle_status_item : Bool → BundleStatusItem
new_bundle_status_item asserted = record { asserted = asserted; time = 0; status_requested = false }

unfoldable pub new_time_reporting_item : ℕ → BundleStatusItem
new_time_reporting_item time = record { asserted = true; time = time; status_requested = true }

pub record StatusReport : Type 0 where
  pub status_information : List BundleStatusItem
  pub report_reason : ℕ
  pub ref_bundle : BundleId

-- RequestStatusTime
abbrev pub request_status_time : ℕ
request_status_time = 0x40

-- The switch in the loop of NewStatusReport.
unfoldable pub item_at : Bundle → ℕ → ℕ → ℕ → BundleStatusItem
item_at b position time i =
    if i == position && has b.primary_block.bundle_control_flags request_status_time
    then new_time_reporting_item time
    else if i == position
    then new_bundle_status_item true
    else new_bundle_status_item false

-- NewStatusReport
unfoldable pub new_status_report : Bundle → ℕ → ℕ → ℕ → StatusReport
new_status_report b position reason time = record {
  status_information =
      item_at b position time 0
      ∷ item_at b position time 1
      ∷ item_at b position time 2
      ∷ item_at b position time 3
      ∷ [];
  report_reason = reason;
  ref_bundle = bundle_id b;
}

-- The loop of StatusInformations from position i on.
unfoldable pub asserted_from : ℕ → List BundleStatusItem → List ℕ
asserted_from i [] = []
asserted_from i (si ∷ sis) =
    let rest = asserted_from (suc i) sis in if si.asserted then i ∷ rest else rest

unfoldable pub status_informations : StatusReport → List ℕ
status_informations sr = asserted_from 0 sr.status_information

-- BundleID.Len
unfoldable pub bundle_id_len : BundleId → ℕ
bundle_id_len bid = if bid.id_is_fragment then 4 else 2

-- The length of a report's array says if the bundle is a fragment.
unfoldable pub of_fragment : ℕ → Result Bool
of_fragment n = if n == 4 then ok false else if n == 6 then ok true else err (array_length n)

-- The error of a record's value is wrapped.
abbrev pub wrapped : {A : Type 0} → ℕ → Result A → Result A
wrapped code (ok a) = ok a
wrapped code (err e) = err (record_value code)
wrapped code panic = panic

abbrev pub status_report_code : ℕ
status_report_code = 1

module _ (cbor : Cbor) (booleans : Booleans) where
  open cbor use {write_uint, read_uint, write_array_length, read_array_length}

  unfoldable pub marshal_status_item : BundleStatusItem → List ℕ
  marshal_status_item si =
      let n = if si.asserted && si.status_requested then 2 else 1 in
      write_array_length n
      ++ (booleans.write_boolean si.asserted ++ (if n == 2 then write_uint si.time else []))

  unfoldable pub unmarshal_status_item : List ℕ → Result (BundleStatusItem × List ℕ)
  unmarshal_status_item r = do
    (n, r) ← read_array_length r
    guard (n == 1 || n == 2) (array_length n)
    (b, r) ← booleans.read_boolean r
    let timed = read_uint r >>= λ (t, r').
        ok (record { asserted = b; time = t; status_requested = true }, r')
    if n == 2 then timed else ok (record { asserted = b; time = 0; status_requested = false }, r)

  unfoldable pub marshal_status_items : List BundleStatusItem → List ℕ
  marshal_status_items [] = []
  marshal_status_items (si ∷ sis) = marshal_status_item si ++ marshal_status_items sis

  unfoldable pub unmarshal_status_items : ℕ → List ℕ → Result (List BundleStatusItem × List ℕ)
  unmarshal_status_items zero r = ok ([], r)
  unmarshal_status_items (suc n) r = do
    (si, r) ← unmarshal_status_item r
    (sis, r) ← unmarshal_status_items n r
    ok (si ∷ sis, r)

  -- BundleID.MarshalCbor
  unfoldable pub marshal_bundle_id : BundleId → Result (List ℕ)
  marshal_bundle_id bid = do
    source ← marshal_endpoint cbor bid.source_node
    ok (
        source
        ++ (marshal_timestamp cbor bid.timestamp
            ++ (if bid.id_is_fragment
                then write_uint bid.id_fragment_offset ++ write_uint bid.id_total_data_length
                else [])))

  -- BundleID.UnmarshalCbor, into an ID that is zero but for IsFragment.
  unfoldable pub unmarshal_bundle_id : Bool → List ℕ → Result (BundleId × List ℕ)
  unmarshal_bundle_id fragment r = do
    (source, r) ← unmarshal_endpoint cbor r
    (time, r) ← unmarshal_timestamp cbor r
    let whole : BundleId = record {
      source_node = source;
      timestamp = time;
      id_is_fragment = fragment;
      id_fragment_offset = 0;
      id_total_data_length = 0;
    }
    let part = do
      (offset, r) ← read_uint r
      (total, r) ← read_uint r
      ok (record whole { id_fragment_offset = offset; id_total_data_length = total }, r)
    if fragment then part else ok (whole, r)

  -- StatusReport.MarshalCbor
  unfoldable pub marshal_status_report : StatusReport → Result (List ℕ)
  marshal_status_report sr = do
    id ← marshal_bundle_id sr.ref_bundle
    ok (
        write_array_length (2 + bundle_id_len sr.ref_bundle)
        ++ (write_array_length (length sr.status_information)
            ++ (marshal_status_items sr.status_information ++ (write_uint sr.report_reason ++ id))))

  -- AdministrativeRecordManager.WriteAdministrativeRecord
  unfoldable pub write_administrative_record : StatusReport → Result (List ℕ)
  write_administrative_record sr = do
    bytes ← wrapped status_report_code (marshal_status_report sr)
    ok (write_array_length 2 ++ (write_uint status_report_code ++ bytes))

  module _ (alloc_limit : ℕ) where
    -- StatusReport.UnmarshalCbor; make panics above the limit of items.
    unfoldable pub unmarshal_status_report : List ℕ → Result (StatusReport × List ℕ)
    unmarshal_status_report r = do
      (n, r) ← read_array_length r
      fragment ← of_fragment n
      (m, r) ← read_array_length r
      (items, r) ← if leb m alloc_limit then unmarshal_status_items m r else panic
      (reason, r) ← read_uint r
      (id, r) ← unmarshal_bundle_id fragment r
      ok (record { status_information = items; report_reason = reason; ref_bundle = id }, r)

    -- AdministrativeRecordManager.ReadAdministrativeRecord
    unfoldable pub read_administrative_record : List ℕ → Result (StatusReport × List ℕ)
    read_administrative_record r = do
      (n, r) ← read_array_length r
      guard (n == 2) (array_length n)
      (code, r) ← read_uint r
      if code == status_report_code
          then wrapped code (unmarshal_status_report r)
          else err (unknown_record_type code)
