-- ===== src/Bpv7/AdministrativeRecord/Ids.antt =====
-- bundle_id.go: the CBOR form of a BundleID in both directions.
use dtn.Prelude.{
  ℕ, ◌<◌, ◌≡◌, refl, sym, ap, ◌∙◌, List, [], ◌++◌, append_assoc, some, Bool, true, false, ok,
  if◌then◌else◌,
}
use dtn.Prelude.Int.{u64_mod}
use dtn.Bpv7.Endpoint.{EndpointType}
use dtn.Bpv7.Time.{CreationTimestamp}
use dtn.Bpv7.Bundle.{BundleId}
use dtn.Bpv7.Codec.{Cbor, CborLaws}
use dtn.Bpv7.Codec.Endpoint.{
  IsParsed, endpoint_bytes, marshal_endpoint-IsParsed, endpoint_back, timestamp_back,
  marshal_timestamp,
}
use dtn.Bpv7.AdministrativeRecord.{Booleans, marshal_bundle_id, unmarshal_bundle_id}

-- The fields of an ID are words, and the last two are zero unless it is the ID of a fragment.
pub record IsWritableId (source : EndpointType) (bid : BundleId) : Type 0 where
  pub parsed : (bid.source_node ≡ some source) × IsParsed source
  pub dtn_time : bid.timestamp.dtn_time < u64_mod
  pub sequence : bid.timestamp.sequence_number < u64_mod
  pub offset : bid.id_fragment_offset < u64_mod
  pub total : bid.id_total_data_length < u64_mod
  pub no_fragment :
      bid.id_is_fragment ≡ false → (bid.id_fragment_offset ≡ 0) × (bid.id_total_data_length ≡ 0)

-- The octets of an ID.
abbrev pub id_bytes : Cbor → EndpointType → BundleId → List ℕ
id_bytes cbor source bid =
    endpoint_bytes cbor source
    ++ (marshal_timestamp cbor bid.timestamp
        ++ (if bid.id_is_fragment
            then cbor.write_uint bid.id_fragment_offset ++ cbor.write_uint bid.id_total_data_length
            else []))

module _ (cbor : Cbor) (laws : CborLaws cbor) (booleans : Booleans) where
  pub marshal_id :
      (source : EndpointType) (bid : BundleId)
      → IsWritableId source bid
      → marshal_bundle_id cbor booleans bid ≡ ok (id_bytes cbor source bid)
  unfolding marshal_bundle_id
  marshal_id source bid h =
      rw (h.parsed.0, marshal_endpoint-IsParsed cbor laws source h.parsed.1) refl

  fields_back :
      (source : EndpointType) (ts : CreationTimestamp) (fragment : Bool) (offset total : ℕ)
      (rest : List ℕ)
      → IsParsed source
      → ts.dtn_time < u64_mod
      → ts.sequence_number < u64_mod
      → offset < u64_mod
      → total < u64_mod
      → (fragment ≡ false → (offset ≡ 0) × (total ≡ 0))
      → unmarshal_bundle_id cbor booleans fragment (
          (endpoint_bytes cbor source
            ++ (marshal_timestamp cbor ts
                ++ (if fragment then cbor.write_uint offset ++ cbor.write_uint total else [])))
          ++ rest)
        ≡ ok (
          record {
            source_node = some source;
            timestamp = ts;
            id_is_fragment = fragment;
            id_fragment_offset = offset;
            id_total_data_length = total;
          },
          rest,
        )
  unfolding unmarshal_bundle_id
  fields_back source ts true offset total rest parsed time sequence small_offset small_total zeros =
      rw
        (
          append_assoc (endpoint_bytes cbor source)
              (marshal_timestamp cbor ts ++ (cbor.write_uint offset ++ cbor.write_uint total)) rest,
          append_assoc (marshal_timestamp cbor ts) (cbor.write_uint offset ++ cbor.write_uint total)
              rest,
          append_assoc (cbor.write_uint offset) (cbor.write_uint total) rest,
          endpoint_back cbor laws source
              (marshal_timestamp cbor ts
                ++ (cbor.write_uint offset ++ (cbor.write_uint total ++ rest)))
              parsed,
          timestamp_back cbor laws ts (cbor.write_uint offset ++ (cbor.write_uint total ++ rest))
              time sequence,
          laws.uint_back offset (cbor.write_uint total ++ rest) small_offset,
          laws.uint_back total rest small_total,
        )
        refl
  fields_back source ts false offset total rest parsed time sequence small_offset small_total
        zeros =
      rw
        (
          append_assoc (endpoint_bytes cbor source) (marshal_timestamp cbor ts ++ []) rest,
          append_assoc (marshal_timestamp cbor ts) [] rest,
          endpoint_back cbor laws source (marshal_timestamp cbor ts ++ rest) parsed,
          timestamp_back cbor laws ts rest time sequence,
          (zeros refl).0,
          (zeros refl).1,
        )
        refl

  pub id_back :
      (source : EndpointType) (bid : BundleId) (rest : List ℕ)
      → IsWritableId source bid
      → unmarshal_bundle_id cbor booleans bid.id_is_fragment (id_bytes cbor source bid ++ rest)
        ≡ ok (bid, rest)
  id_back source bid rest h =
      fields_back source bid.timestamp bid.id_is_fragment bid.id_fragment_offset
        bid.id_total_data_length rest h.parsed.1 h.dtn_time h.sequence h.offset h.total
        h.no_fragment
      ∙ ap (λ e. ok (record bid { source_node = e }, rest)) (sym h.parsed.0)
