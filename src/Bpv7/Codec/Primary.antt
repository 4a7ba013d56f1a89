-- ===== src/Bpv7/Codec/Primary.antt =====
-- PrimaryBlock.MarshalCbor and UnmarshalCbor in primary_block.go. A block is read into a zero one,
-- as UnmarshalCbor of a new Bundle does.
pub mod RoundTrip
use dtn.Prelude.{
  ℕ, ◌<◌, ◌≡◌, refl, sym, ap, ◌∙◌, subst, List, [], ◌∷◌, ◌++◌, append_assoc, Bool, true, false, not,
  ◌&&◌, ◌||◌, ok, ◌>>=◌, ◌>>◌, guard, arith, ◌==◌, leb, if◌then◌else◌, inl, inr, Bool-cases, some,
  >>=-eq-ok,
}
use dtn.Prelude.Int.{u64_mod}
use dtn.Bpv7.Errors.{Result, array_length, unsupported_version}
use dtn.Bpv7.Endpoint.{EndpointType}
use dtn.Bpv7.Primary.{PrimaryBlock, dtn_version, has_fragmentation, has_crc}
use dtn.Bpv7.Codec.{Cbor, CborLaws, Checksums}
use dtn.Bpv7.Codec.Crc.{consumed, marshal_crc, unmarshal_crc, consumed-append, crc_back, read_then}
use dtn.Bpv7.Codec.Endpoint.{
  marshal_endpoint, unmarshal_endpoint, marshal_timestamp, unmarshal_timestamp, IsParsed,
  endpoint_bytes, marshal_endpoint-IsParsed, endpoint_back, timestamp_back,
}

-- `blockLen`
unfoldable pub block_length : PrimaryBlock → ℕ
block_length pb =
    if has_fragmentation pb then (if has_crc pb then 11 else 10) else (if has_crc pb then 9 else 8)

module _ (cbor : Cbor) (sums : Checksums) where
  open cbor use {write_uint, read_uint, write_array_length, read_array_length}

  unfoldable pub fragment_fields : PrimaryBlock → List ℕ
  fragment_fields pb =
      if has_fragmentation pb
      then write_uint pb.fragment_offset ++ write_uint pb.total_data_length
      else []

  -- The fields before the CRC, from the bytes of the three endpoints.
  abbrev pub primary_fields : PrimaryBlock → List ℕ → List ℕ → List ℕ → List ℕ
  primary_fields pb destination source report =
      write_array_length (block_length pb)
      ++ (write_uint dtn_version
          ++ (write_uint pb.bundle_control_flags
              ++ (write_uint pb.crc_type
                  ++ (destination
                      ++ (source
                          ++ (report
                              ++ (marshal_timestamp cbor pb.creation_timestamp
                                  ++ (write_uint pb.lifetime ++ fragment_fields pb))))))))

  -- What is written, and the block with its new CRC.
  unfoldable pub marshal_primary : PrimaryBlock → Result (List ℕ × PrimaryBlock)
  marshal_primary pb = do
    destination ← marshal_endpoint cbor pb.destination
    source ← marshal_endpoint cbor pb.source_node
    report ← marshal_endpoint cbor pb.report_to
    let body = primary_fields pb destination source report
    (field, crc) ← marshal_crc cbor sums pb.crc_type pb.crc body
    ok (body ++ field, record pb { crc = crc })

  unfoldable pub unmarshal_fragment : Bool → List ℕ → Result ((ℕ × ℕ) × List ℕ)
  unmarshal_fragment false r = ok ((0, 0), r)
  unmarshal_fragment true r = do
    (offset, r') ← read_uint r
    (total, r'') ← read_uint r'
    ok ((offset, total), r'')

  unfoldable pub unmarshal_primary : List ℕ → Result (PrimaryBlock × List ℕ)
  unmarshal_primary input = do
    (l, r0) ← read_array_length input
    guard (leb 8 l && leb l 11) (array_length l)
    (version, r1) ← read_uint r0
    guard (version == dtn_version) (unsupported_version version)
    (bcf, r2) ← read_uint r1
    (crc_type, r3) ← read_uint r2
    (destination, r4) ← unmarshal_endpoint cbor r3
    (source, r5) ← unmarshal_endpoint cbor r4
    (report, r6) ← unmarshal_endpoint cbor r5
    (timestamp, r7) ← unmarshal_timestamp cbor r6
    (lifetime, r8) ← read_uint r7
    ((offset, total), r9) ← unmarshal_fragment (l == 10 || l == 11) r8
    (crc, rest) ← unmarshal_crc cbor sums (l == 9 || l == 11) crc_type (consumed input r9) r9
    ok (
      record {
        version = dtn_version;
        bundle_control_flags = bcf;
        crc_type = crc_type;
        destination = destination;
        source_node = source;
        report_to = report;
        creation_timestamp = timestamp;
        lifetime = lifetime;
        fragment_offset = offset;
        total_data_length = total;
        crc = crc;
      },
      rest,
    )
