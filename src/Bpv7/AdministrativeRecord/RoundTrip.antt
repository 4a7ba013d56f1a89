-- ===== src/Bpv7/AdministrativeRecord/RoundTrip.antt =====
-- administrative_record.go, administrative_record_status_report.go and bundle_id.go, in both directions.
use dtn.Prelude.{
  ℕ, ◌+◌, ◌<◌, ◌≤◌, ◌≡◌, refl, List, [], ◌∷◌, ◌++◌, append_assoc, Bool, true, false, ok, ◌>>=◌,
  arith, length, All, leb, if◌then◌else◌,
}
use dtn.Prelude.Int.{u64_mod}
use dtn.Bpv7.Endpoint.{EndpointType}
use dtn.Bpv7.Bundle.{BundleId}
use dtn.Bpv7.Codec.{Cbor, CborLaws}
use dtn.Bpv7.AdministrativeRecord.{
  Booleans, BooleanLaws, BundleStatusItem, StatusReport, bundle_id_len, of_fragment,
  marshal_status_item, unmarshal_status_item, marshal_status_items, unmarshal_status_items,
  marshal_status_report, unmarshal_status_report, write_administrative_record,
  read_administrative_record, status_report_code,
}
use dtn.Bpv7.AdministrativeRecord.Ids.{IsWritableId, id_bytes, marshal_id, id_back}

-- A time stands only in an item that was requested, and that item asserts its status.
pub data IsItem : BundleStatusItem → Type 0 where
  plain :
      (asserted : Bool)
      → IsItem (record { asserted = asserted; time = 0; status_requested = false })
  timed :
      (time : ℕ)
      → time < u64_mod
      → IsItem (record { asserted = true; time = time; status_requested = true })

-- The ID is writable, the items are items, and the numbers are in range.
pub record IsReportable (source : EndpointType) (limit : ℕ) (sr : StatusReport) : Type 0 where
  pub items : All IsItem sr.status_information
  pub count : length sr.status_information < u64_mod
  pub limited : length sr.status_information ≤ limit
  pub reason : sr.report_reason < u64_mod
  pub id : IsWritableId source sr.ref_bundle

fragment_length : (fragment : Bool) → of_fragment (2 + (if fragment then 4 else 2)) ≡ ok fragment
unfolding of_fragment
fragment_length true = refl
fragment_length false = refl

length_back : (bid : BundleId) → of_fragment (2 + bundle_id_len bid) ≡ ok bid.id_is_fragment
unfolding bundle_id_len
length_back bid = fragment_length bid.id_is_fragment

short_id : (bid : BundleId) → 2 + bundle_id_len bid < u64_mod
unfolding bundle_id_len
short_id bid = ground arith

module _ (cbor : Cbor) (laws : CborLaws cbor) (booleans : Booleans)
    (boolean_laws : BooleanLaws booleans) where
  plain_back :
      (b : Bool) (rest : List ℕ)
      → unmarshal_status_item cbor booleans
          ((cbor.write_array_length 1 ++ (booleans.write_boolean b ++ [])) ++ rest)
        ≡ ok (record { asserted = b; time = 0; status_requested = false }, rest)
  unfolding unmarshal_status_item
  plain_back b rest =
      rw
        (
          append_assoc (cbor.write_array_length 1) (booleans.write_boolean b ++ []) rest,
          append_assoc (booleans.write_boolean b) [] rest,
          laws.array_back 1 (booleans.write_boolean b ++ rest) (omega arith),
          boolean_laws.boolean_back b rest,
        )
        refl

  timed_back :
      (time : ℕ) (rest : List ℕ)
      → time < u64_mod
      → unmarshal_status_item cbor booleans (
          (cbor.write_array_length 2 ++ (booleans.write_boolean true ++ cbor.write_uint time))
          ++ rest)
        ≡ ok (record { asserted = true; time = time; status_requested = true }, rest)
  unfolding unmarshal_status_item
  timed_back time rest small =
      rw
        (
          append_assoc (cbor.write_array_length 2)
              (booleans.write_boolean true ++ cbor.write_uint time) rest,
          append_assoc (booleans.write_boolean true) (cbor.write_uint time) rest,
          laws.array_back 2 (booleans.write_boolean true ++ (cbor.write_uint time ++ rest))
              (omega arith),
          boolean_laws.boolean_back true (cbor.write_uint time ++ rest),
          laws.uint_back time rest small,
        )
        refl

  item_back :
      (si : BundleStatusItem) (rest : List ℕ)
      → IsItem si
      → unmarshal_status_item cbor booleans (marshal_status_item cbor booleans si ++ rest)
        ≡ ok (si, rest)
  unfolding marshal_status_item
  item_back _ rest (plain true) = plain_back true rest
  item_back _ rest (plain false) = plain_back false rest
  item_back _ rest (timed time small) = timed_back time rest small

  items_back :
      (sis : List BundleStatusItem) (rest : List ℕ)
      → All IsItem sis
      → unmarshal_status_items cbor booleans
          (length sis)
          (marshal_status_items cbor booleans sis ++ rest)
        ≡ ok (sis, rest)
  unfolding marshal_status_items unmarshal_status_items
  items_back [] rest h = refl
  items_back (si ∷ sis) rest (h, hs) =
      rw
        (
          append_assoc (marshal_status_item cbor booleans si)
              (marshal_status_items cbor booleans sis) rest,
          item_back si (marshal_status_items cbor booleans sis ++ rest) h,
          items_back sis rest hs,
        )
        refl

  abbrev report_bytes : EndpointType → StatusReport → List ℕ
  report_bytes source sr =
      cbor.write_array_length (2 + bundle_id_len sr.ref_bundle)
      ++ (cbor.write_array_length (length sr.status_information)
          ++ (marshal_status_items cbor booleans sr.status_information
              ++ (cbor.write_uint sr.report_reason ++ id_bytes cbor source sr.ref_bundle)))

  report_back :
      (source : EndpointType) (limit : ℕ) (sr : StatusReport) (rest : List ℕ)
      → IsReportable source limit sr
      → unmarshal_status_report cbor booleans limit (report_bytes source sr ++ rest) ≡ ok (sr, rest)
  unfolding unmarshal_status_report
  report_back source limit sr rest h =
      let id = id_bytes cbor source sr.ref_bundle in
      let reason = cbor.write_uint sr.report_reason in
      let items = marshal_status_items cbor booleans sr.status_information in
      let count = length sr.status_information in
      let fits : leb count limit ≡ true = ground (arith, h.limited) in
      rw
        (
          append_assoc (cbor.write_array_length (2 + bundle_id_len sr.ref_bundle))
              (cbor.write_array_length count ++ (items ++ (reason ++ id))) rest,
          append_assoc (cbor.write_array_length count) (items ++ (reason ++ id)) rest,
          append_assoc items (reason ++ id) rest,
          append_assoc reason id rest,
          laws.array_back (2 + bundle_id_len sr.ref_bundle)
              (cbor.write_array_length count ++ (items ++ (reason ++ (id ++ rest))))
              (short_id sr.ref_bundle),
          length_back sr.ref_bundle,
          laws.array_back count (items ++ (reason ++ (id ++ rest))) h.count,
          fits,
          items_back sr.status_information (reason ++ (id ++ rest)) h.items,
          laws.uint_back sr.report_reason (id ++ rest) h.reason,
          id_back cbor laws booleans source sr.ref_bundle rest h.id,
        )
        refl

  -- If the CBOR library reads back what it writes: a report whose numbers are words, with an ID whose
  -- source is parsed and whose last two fields are zero unless it is a fragment's, with items that have a time
  -- only where it was requested for an asserted status, and no more items than can be
  -- allocated, is written as a record and read back, and what follows is left.
  pub read-write_administrative_record :
      (source : EndpointType) (limit : ℕ) (sr : StatusReport) (rest : List ℕ)
      → IsReportable source limit sr
      → (write_administrative_record cbor booleans sr >>= λ bytes.
          read_administrative_record cbor booleans limit (bytes ++ rest))
        ≡ ok (sr, rest)
  unfolding write_administrative_record marshal_status_report read_administrative_record
  read-write_administrative_record source limit sr rest h =
      let bytes = report_bytes source sr in
      rw
        (
          marshal_id cbor laws booleans source sr.ref_bundle h.id,
          append_assoc (cbor.write_array_length 2) (cbor.write_uint status_report_code ++ bytes)
              rest,
          append_assoc (cbor.write_uint status_report_code) bytes rest,
          laws.array_back 2 (cbor.write_uint status_report_code ++ (bytes ++ rest)) (omega arith),
          laws.uint_back status_report_code (bytes ++ rest) (omega arith),
          report_back source limit sr rest h,
        )
        refl
