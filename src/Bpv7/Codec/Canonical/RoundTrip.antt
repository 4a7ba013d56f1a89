-- ===== src/Bpv7/Codec/Canonical/RoundTrip.antt =====
-- What CanonicalBlock.MarshalCbor writes is read back by UnmarshalCbor.
use dtn.Prelude.{
  ℕ, ◌≤◌, ◌<◌, ◌≡◌, ◌≢◌, refl, sym, ap, ◌∙◌, List, [], ◌++◌, append_assoc, append-nil, true, not,
  ◌||◌, some, ok, arith, ◌==◌, leb, inl, inr, Bool-cases, length,
}
use dtn.Prelude.Int.{u64_mod}
use dtn.Bpv7.Endpoint.{EndpointType}
use dtn.Bpv7.Block.{
  HopCountBlock, ExtensionBlock, payload, previous_node, bundle_age, hop_count, generic,
  payload_code, previous_node_code, bundle_age_code, hop_count_code, block_type_code,
  CanonicalBlock, type_code,
}
use dtn.Bpv7.Codec.{Cbor, CborLaws, Checksums}
use dtn.Bpv7.Codec.Crc.{marshal_crc, consumed-append, crc_back, marshal_crc-total, read_then}
use dtn.Bpv7.Codec.Endpoint.{IsParsed, endpoint_bytes, marshal_endpoint-IsParsed, endpoint_back}
use dtn.Bpv7.Codec.Canonical.{
  canonical_length, canonical_fields, marshal_hop_count, unmarshal_hop_count, marshal_value,
  write_block, unmarshal_value, read_block, wrapped, marshal_canonical, unmarshal_canonical,
}

-- A value whose fields are in range, whose endpoint is valid, and whose bytes are not too many. A
-- generic value is of no known type.
abbrev pub IsValue : Cbor → Checksums → ExtensionBlock → Type 0
IsValue cbor sums (payload bytes) = length bytes < u64_mod
IsValue cbor sums (previous_node e) =
    (d : EndpointType) × (e ≡ some d) × IsParsed d × (length (endpoint_bytes cbor d) < u64_mod)
IsValue cbor sums (bundle_age ms) = (ms < u64_mod) × (length (cbor.write_uint ms) < u64_mod)
IsValue cbor sums (hop_count h) =
    (h.limit < 256) × (h.count < 256) × (length (marshal_hop_count cbor sums h) < u64_mod)
IsValue cbor sums (generic bytes code) =
    (length bytes < u64_mod)
    × (code ≢ payload_code)
    × (code ≢ previous_node_code)
    × (code ≢ bundle_age_code)
    × (code ≢ hop_count_code)

pub record IsWritableBlock (cbor : Cbor) (sums : Checksums) (cb : CanonicalBlock) : Type 0 where
  pub code : type_code cb < u64_mod
  pub number : cb.block_number < u64_mod
  pub flags : cb.block_control_flags < u64_mod
  pub crc_type : cb.crc_type ≤ 2
  pub no_crc : cb.crc_type ≡ 0 → cb.crc ≡ []
  pub value : IsValue cbor sums cb.value

canonical_length_lem :
    (cb : CanonicalBlock)
    → ((canonical_length cb == 5 || canonical_length cb == 6) ≡ true)
      × ((canonical_length cb == 6) ≡ not (cb.crc_type == 0))
      × (canonical_length cb < u64_mod)
unfolding canonical_length
canonical_length_lem cb = elim (Bool-cases (cb.crc_type == 0)) [
  | inl c ↦ rw c (refl, refl, omega arith)
  | inr c ↦ rw c (refl, refl, omega arith)
]

module _ (cbor : Cbor) (sums : Checksums) (laws : CborLaws cbor) where
  hop_count_back :
      (h : HopCountBlock) (rest : List ℕ)
      → h.limit < 256
      → h.count < 256
      → unmarshal_hop_count cbor sums (marshal_hop_count cbor sums h ++ rest) ≡ ok (h, rest)
  unfolding unmarshal_hop_count marshal_hop_count
  hop_count_back h rest l c =
      let limit : leb h.limit 255 ≡ true = ground arith in
      let count : leb h.count 255 ≡ true = ground arith in
      read_then cbor sums laws cbor.read_array_length _ _ _ rest 2
        (λ x. laws.array_back 2 x (omega arith))
        (read_then cbor sums laws cbor.read_uint _ _ _ rest h.limit
          (λ x. laws.uint_back h.limit x (omega arith))
          (rw (limit, laws.uint_back h.count rest (omega arith), count) refl))

  value_back :
      (b : ExtensionBlock)
      → IsValue cbor sums b
      → (bytes : List ℕ) × (marshal_value cbor sums b ≡ ok bytes)
        × (length bytes < u64_mod)
        × (unmarshal_value cbor sums (block_type_code b) bytes ≡ ok b)
  unfolding marshal_value unmarshal_value block_type_code
  value_back (payload bytes) h = (bytes, refl, h, refl)
  value_back (previous_node e) (d, same, parsed, short) = (
    endpoint_bytes cbor d,
    ap (marshal_value cbor sums) (ap previous_node same)
        ∙ marshal_endpoint-IsParsed cbor laws d parsed,
    short,
    rw (sym (append-nil (endpoint_bytes cbor d)), endpoint_back cbor laws d [] parsed)
        (ap (λ x. ok (previous_node x)) (sym same)),
  )
  value_back (bundle_age ms) (small, short) = (
    cbor.write_uint ms,
    refl,
    short,
    rw (sym (append-nil (cbor.write_uint ms)), laws.uint_back ms [] small) refl,
  )
  value_back (hop_count h) (l, c, short) = (
    marshal_hop_count cbor sums h,
    refl,
    short,
    rw (sym (append-nil (marshal_hop_count cbor sums h)), hop_count_back h [] l c) refl,
  )
  value_back (generic bytes code) (short, n1, n6, n7, n10) = (bytes, refl, short, ground arith)

  block_back :
      (b : ExtensionBlock)
      → IsValue cbor sums b
      → (bytes : List ℕ) × (write_block cbor sums b ≡ ok bytes)
        × ((rest : List ℕ)
            → wrapped cbor sums
                (block_type_code b)
                (read_block cbor sums (block_type_code b) (bytes ++ rest))
              ≡ ok (b, rest))
  unfolding write_block read_block wrapped
  block_back b h =
      let (bytes, written, short, back) = value_back b h in
      (
        cbor.write_byte_string bytes,
        rw written refl,
        λ rest. rw (laws.bytes_back bytes rest short, back) refl,
      )

  canonical_back :
      (cb : CanonicalBlock) (value rest field crc : List ℕ)
      → IsWritableBlock cbor sums cb
      → ((r : List ℕ)
          → wrapped cbor sums (type_code cb) (read_block cbor sums (type_code cb) (value ++ r))
            ≡ ok (cb.value, r))
      → marshal_crc cbor sums cb.crc_type [] (canonical_fields cbor sums cb value) ≡ ok (field, crc)
      → unmarshal_canonical cbor sums (canonical_fields cbor sums cb value ++ (field ++ rest))
        ≡ ok (record cb { crc = crc }, rest)
  unfolding unmarshal_canonical
  canonical_back cb value rest field crc w back e =
      let (bounded, has, small) = canonical_length_lem cb in
      let fields =
        cbor.write_uint (type_code cb)
        ++ (cbor.write_uint cb.block_number
            ++ (cbor.write_uint cb.block_control_flags
                ++ (cbor.write_uint cb.crc_type ++ value))) in
      read_then cbor sums laws cbor.read_array_length _ _ _ _ (canonical_length cb)
        (λ x. laws.array_back (canonical_length cb) x small)
        (rw bounded (
          read_then cbor sums laws cbor.read_uint _ _ _ _ (type_code cb)
            (λ x. laws.uint_back (type_code cb) x w.code)
            (read_then cbor sums laws cbor.read_uint _ _ _ _ cb.block_number
              (λ x. laws.uint_back cb.block_number x w.number)
              (read_then cbor sums laws cbor.read_uint _ _ _ _ cb.block_control_flags
                (λ x. laws.uint_back cb.block_control_flags x w.flags)
                (read_then cbor sums laws cbor.read_uint _ _ _ _ cb.crc_type
                  (λ x. laws.uint_back cb.crc_type x (omega (arith, w.crc_type)))
                  (rw (back (field ++ rest)) (
                    rw
                      (
                        has,
                        consumed-append fields (field ++ rest),
                        crc_back cbor sums laws cb.crc_type _ rest e,
                      )
                      refl)))))))

  pub canonical_written :
      (cb : CanonicalBlock)
      → IsWritableBlock cbor sums cb
      → (bytes : List ℕ) × (crc : List ℕ) × (marshal_canonical cbor sums cb
          ≡ ok (bytes, record cb { crc = crc }))
        × ((rest : List ℕ)
            → unmarshal_canonical cbor sums (bytes ++ rest) ≡ ok (record cb { crc = crc }, rest))
  unfolding marshal_canonical type_code
  canonical_written cb w =
      let (value, written, back) = block_back cb.value w.value in
      let body = canonical_fields cbor sums cb value in
      let (field, crc, summed, summed') =
        marshal_crc-total cbor sums laws cb.crc_type cb.crc body w.crc_type w.no_crc in
      (
        body ++ field,
        crc,
        rw (written, summed) refl,
        λ rest.
            rw (append_assoc body field rest)
              (canonical_back cb value rest field crc w back summed'),
      )

  -- A canonical block with a known type of CRC and fields in range, whose value is in range and has a
  -- valid endpoint, if any, is written without an error, and what is written is read back as this
  -- block, with the CRC that writing it has set, and leaves what follows, where the CBOR library reads
  -- back what it writes.
  pub unmarshal-marshal_canonical :
      (cb : CanonicalBlock) (rest : List ℕ)
      → IsWritableBlock cbor sums cb
      → (bytes : List ℕ) × (crc : List ℕ) × (marshal_canonical cbor sums cb
          ≡ ok (bytes, record cb { crc = crc }))
        × (unmarshal_canonical cbor sums (bytes ++ rest) ≡ ok (record cb { crc = crc }, rest))
  unmarshal-marshal_canonical cb rest w =
      let (bytes, crc, written, back) = canonical_written cb w in (bytes, crc, written, back rest)
