-- ===== src/Bpv7/Codec/Primary/RoundTrip.antt =====
-- What PrimaryBlock.MarshalCbor writes is read back by UnmarshalCbor.
use dtn.Prelude.{
  ℕ, ◌≤◌, ◌<◌, ◌≡◌, refl, sym, ap, ◌∙◌, List, [], ◌++◌, append_assoc, true, false, not, ◌&&◌, ◌||◌,
  some, ok, arith, ◌==◌, leb, inl, inr, Bool-cases,
}
use dtn.Prelude.Int.{u64_mod}
use dtn.Bpv7.Errors.{Result}
use dtn.Bpv7.Endpoint.{EndpointId, EndpointType}
use dtn.Bpv7.Primary.{PrimaryBlock, has_fragmentation, has_crc}
use dtn.Bpv7.Codec.{Cbor, CborLaws, Checksums}
use dtn.Bpv7.Codec.Crc.{marshal_crc, consumed-append, crc_back, marshal_crc-total, read_then}
use dtn.Bpv7.Codec.Endpoint.{
  marshal_endpoint, unmarshal_endpoint, unmarshal_timestamp, IsParsed, endpoint_bytes,
  marshal_endpoint-IsParsed, endpoint_back, timestamp_back,
}
use dtn.Bpv7.Codec.Primary.{
  block_length, fragment_fields, primary_fields, marshal_primary, unmarshal_fragment,
  unmarshal_primary,
}

-- The fields are words, the endpoints are there, and no field is set that the flags leave out.
pub record IsWritable (pb : PrimaryBlock) (d s r : EndpointType) : Type 0 where
  pub version : pb.version ≡ 7
  pub flags : pb.bundle_control_flags < u64_mod
  pub crc_type : pb.crc_type ≤ 2
  pub destination : (pb.destination ≡ some d) × IsParsed d
  pub source : (pb.source_node ≡ some s) × IsParsed s
  pub report_to : (pb.report_to ≡ some r) × IsParsed r
  pub time : pb.creation_timestamp.dtn_time < u64_mod
  pub sequence : pb.creation_timestamp.sequence_number < u64_mod
  pub lifetime : pb.lifetime < u64_mod
  pub offset : pb.fragment_offset < u64_mod
  pub total : pb.total_data_length < u64_mod
  pub unfragmented :
      has_fragmentation pb ≡ false → (pb.fragment_offset ≡ 0) × (pb.total_data_length ≡ 0)
  pub no_crc : pb.crc_type ≡ 0 → pb.crc ≡ []

block_length_lem :
    (pb : PrimaryBlock)
    → ((leb 8 (block_length pb) && leb (block_length pb) 11) ≡ true)
      × ((block_length pb == 10 || block_length pb == 11) ≡ has_fragmentation pb)
      × ((block_length pb == 9 || block_length pb == 11) ≡ not (pb.crc_type == 0))
      × (block_length pb < u64_mod)
unfolding block_length has_crc
block_length_lem pb = elim (Bool-cases (has_fragmentation pb)) [
  | inl f ↦ elim (Bool-cases (pb.crc_type == 0)) [
    | inl c ↦ rw (f, c) (refl, refl, refl, omega arith)
    | inr c ↦ rw (f, c) (refl, refl, refl, omega arith)
  ]
  | inr f ↦ elim (Bool-cases (pb.crc_type == 0)) [
    | inl c ↦ rw (f, c) (refl, refl, refl, omega arith)
    | inr c ↦ rw (f, c) (refl, refl, refl, omega arith)
  ]
]

written_lem :
    (pb : PrimaryBlock) (d s r : EndpointType) (crc rest : List ℕ)
    → IsWritable pb d s r
    → ◌≡◌ {A = Result (PrimaryBlock × List ℕ)}
        (ok (
          record pb {
            version = 7;
            destination = some d;
            source_node = some s;
            report_to = some r;
            crc = crc;
          },
          rest,
        ))
        (ok (record pb { crc = crc }, rest))
written_lem pb d s r crc rest w = λ i. ok (
  record pb {
    version = sym w.version i;
    destination = sym w.destination.0 i;
    source_node = sym w.source.0 i;
    report_to = sym w.report_to.0 i;
    crc = crc;
  },
  rest,
)

module _ (cbor : Cbor) (sums : Checksums) (laws : CborLaws cbor) where
  endpoint_written :
      {e : EndpointId} {d : EndpointType}
      → (e ≡ some d) × IsParsed d
      → marshal_endpoint cbor e ≡ ok (endpoint_bytes cbor d)
  endpoint_written {d} (same, parsed) =
      ap (marshal_endpoint cbor) same ∙ marshal_endpoint-IsParsed cbor laws d parsed

  fragment_back :
      (pb : PrimaryBlock) (rest : List ℕ)
      → pb.fragment_offset < u64_mod
      → pb.total_data_length < u64_mod
      → (has_fragmentation pb ≡ false → (pb.fragment_offset ≡ 0) × (pb.total_data_length ≡ 0))
      → unmarshal_fragment cbor sums (has_fragmentation pb) (fragment_fields cbor sums pb ++ rest)
        ≡ ok ((pb.fragment_offset, pb.total_data_length), rest)
  unfolding unmarshal_fragment fragment_fields
  fragment_back pb rest o t unused = elim (Bool-cases (has_fragmentation pb)) [
    | inl f ↦ rw f (
        read_then cbor sums laws cbor.read_uint _ _ _ rest _
          (λ r. laws.uint_back pb.fragment_offset r o)
          (rw (laws.uint_back pb.total_data_length rest t) refl))
    | inr f ↦ let (no_offset, no_total) = unused f in rw (f, no_offset, no_total) refl
  ]

  primary_back :
      (pb : PrimaryBlock) (d s r : EndpointType) (rest : List ℕ) (field crc : List ℕ)
      → IsWritable pb d s r
      → let body =
          primary_fields cbor sums pb
            (endpoint_bytes cbor d)
            (endpoint_bytes cbor s)
            (endpoint_bytes cbor r) in
        marshal_crc cbor sums pb.crc_type [] body ≡ ok (field, crc)
        → unmarshal_primary cbor sums (body ++ (field ++ rest)) ≡ ok (record pb { crc = crc }, rest)
  unfolding unmarshal_primary
  primary_back pb d s r rest field crc w e =
      let (bounded, fragmented, has, small) = block_length_lem pb in
      read_then cbor sums laws cbor.read_array_length _ _ _ _ (block_length pb)
        (λ x. laws.array_back (block_length pb) x small)
        (rw bounded (
          read_then cbor sums laws cbor.read_uint _ _ _ _ 7 (λ x. laws.uint_back 7 x (omega arith))
            (read_then cbor sums laws cbor.read_uint _ _ _ _ pb.bundle_control_flags
              (λ x. laws.uint_back pb.bundle_control_flags x w.flags)
              (read_then cbor sums laws cbor.read_uint _ _ _ _ pb.crc_type
                (λ x. laws.uint_back pb.crc_type x (omega (arith, w.crc_type)))
                (read_then cbor sums laws (unmarshal_endpoint cbor) _ _ _ _ (some d)
                  (λ x. endpoint_back cbor laws d x w.destination.1)
                  (read_then cbor sums laws (unmarshal_endpoint cbor) _ _ _ _ (some s)
                    (λ x. endpoint_back cbor laws s x w.source.1)
                    (read_then cbor sums laws (unmarshal_endpoint cbor) _ _ _ _ (some r)
                      (λ x. endpoint_back cbor laws r x w.report_to.1)
                      (read_then cbor sums laws (unmarshal_timestamp cbor) _ _ _ _
                        pb.creation_timestamp
                        (λ x. timestamp_back cbor laws pb.creation_timestamp x w.time w.sequence)
                        (read_then cbor sums laws cbor.read_uint _ _ _ _ pb.lifetime
                          (λ x. laws.uint_back pb.lifetime x w.lifetime)
                          (rw
                            (
                              fragmented,
                              fragment_back pb (field ++ rest) w.offset w.total w.unfragmented,
                            )
                            (rw
                              (
                                has,
                                consumed-append
                                    (primary_fields cbor sums pb (endpoint_bytes cbor d)
                                      (endpoint_bytes cbor s) (endpoint_bytes cbor r))
                                    (field ++ rest),
                                crc_back cbor sums laws pb.crc_type _ rest e,
                              )
                              (written_lem pb d s r crc rest w))))))))))))

  pub primary_written :
      (pb : PrimaryBlock) (d s r : EndpointType)
      → IsWritable pb d s r
      → (bytes : List ℕ) × (crc : List ℕ) × (marshal_primary cbor sums pb
          ≡ ok (bytes, record pb { crc = crc }))
        × ((rest : List ℕ)
            → unmarshal_primary cbor sums (bytes ++ rest) ≡ ok (record pb { crc = crc }, rest))
  unfolding marshal_primary
  primary_written pb d s r w =
      let body =
        primary_fields cbor sums pb (endpoint_bytes cbor d) (endpoint_bytes cbor s)
          (endpoint_bytes cbor r) in
      let (field, crc, written, written') =
        marshal_crc-total cbor sums laws pb.crc_type pb.crc body w.crc_type w.no_crc in
      (
        body ++ field,
        crc,
        rw
            (
              endpoint_written w.destination,
              endpoint_written w.source,
              endpoint_written w.report_to,
              written,
            )
            refl,
        λ rest. rw (append_assoc body field rest) (primary_back pb d s r rest field crc w written'),
      )

  -- A primary block with a known type of CRC, valid endpoints and fields in range is written without an
  -- error, and what is written is read back as this block, with the CRC that writing it has set, and
  -- leaves what follows, where the CBOR library reads back what it writes.
  pub unmarshal-marshal_primary :
      (pb : PrimaryBlock) (d s r : EndpointType) (rest : List ℕ)
      → IsWritable pb d s r
      → (bytes : List ℕ) × (crc : List ℕ) × (marshal_primary cbor sums pb
          ≡ ok (bytes, record pb { crc = crc }))
        × (unmarshal_primary cbor sums (bytes ++ rest) ≡ ok (record pb { crc = crc }, rest))
  unmarshal-marshal_primary pb d s r rest w =
      let (bytes, crc, written, back) = primary_written pb d s r w in
      (bytes, crc, written, back rest)
