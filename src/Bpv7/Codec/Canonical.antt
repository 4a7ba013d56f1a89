-- ===== src/Bpv7/Codec/Canonical.antt =====
-- CanonicalBlock.MarshalCbor and UnmarshalCbor in canonical_block.go, with the extension blocks that
-- GetExtensionBlockManager registers. Blocks of other types, which algorithms may register, are
-- generic here. A block is read into a zero one.
pub mod RoundTrip
use dtn.Prelude.{
  ℕ, List, [], ◌∷◌, ◌++◌, Bool, true, false, not, ◌||◌, ok, err, panic, ◌>>=◌, ◌>>◌, guard, ◌==◌,
  leb, if◌then◌else◌,
}
use dtn.Bpv7.Errors.{Result, array_length, hop_count_range, block_value}
use dtn.Bpv7.Block.{
  HopCountBlock, ExtensionBlock, payload, previous_node, bundle_age, hop_count, generic,
  payload_code, previous_node_code, bundle_age_code, hop_count_code, CanonicalBlock, type_code,
}
use dtn.Bpv7.Codec.{Cbor, Checksums}
use dtn.Bpv7.Codec.Crc.{consumed, marshal_crc, unmarshal_crc}
use dtn.Bpv7.Codec.Endpoint.{marshal_endpoint, unmarshal_endpoint}

-- `blockLen`
unfoldable pub canonical_length : CanonicalBlock → ℕ
canonical_length cb = if cb.crc_type == 0 then 5 else 6

module _ (cbor : Cbor) (sums : Checksums) where
  open cbor use {
    write_uint, read_uint, write_array_length, read_array_length, write_byte_string,
    read_byte_string,
  }

  unfoldable pub marshal_hop_count : HopCountBlock → List ℕ
  marshal_hop_count h = write_array_length 2 ++ (write_uint h.limit ++ write_uint h.count)

  unfoldable pub unmarshal_hop_count : List ℕ → Result (HopCountBlock × List ℕ)
  unmarshal_hop_count r = do
    (l, r0) ← read_array_length r
    guard (l == 2) (array_length l)
    (limit, r1) ← read_uint r0
    guard (leb limit 255) (hop_count_range limit)
    (count, r2) ← read_uint r1
    guard (leb count 255) (hop_count_range count)
    ok (record { limit = limit; count = count }, r2)

  -- The bytes of a value, by MarshalBinary or MarshalCbor.
  unfoldable pub marshal_value : ExtensionBlock → Result (List ℕ)
  marshal_value (payload data') = ok data'
  marshal_value (previous_node e) = marshal_endpoint cbor e
  marshal_value (bundle_age ms) = ok (write_uint ms)
  marshal_value (hop_count h) = ok (marshal_hop_count h)
  marshal_value (generic data' code) = ok data'

  -- WriteBlock
  unfoldable pub write_block : ExtensionBlock → Result (List ℕ)
  write_block b = do data' ← marshal_value b; ok (write_byte_string data')

  -- The value of a block of a type, from its bytes. What a value leaves of them is dropped.
  unfoldable pub unmarshal_value : ℕ → List ℕ → Result ExtensionBlock
  unmarshal_value code data' =
      if code == payload_code
      then ok (payload data')
      else if code == previous_node_code
      then (unmarshal_endpoint cbor data' >>= λ (e, rest). ok (previous_node e))
      else if code == bundle_age_code
      then (read_uint data' >>= λ (ms, rest). ok (bundle_age ms))
      else if code == hop_count_code
      then (unmarshal_hop_count data' >>= λ (h, rest). ok (hop_count h))
      else ok (generic data' code)

  -- ReadBlock
  unfoldable pub read_block : ℕ → List ℕ → Result (ExtensionBlock × List ℕ)
  read_block code r = do
    (data', rest) ← read_byte_string r
    b ← unmarshal_value code data'
    ok (b, rest)

  -- An error of ReadBlock is wrapped, so that it is no break code any more.
  wrapped : ℕ → Result (ExtensionBlock × List ℕ) → Result (ExtensionBlock × List ℕ)
  wrapped code (ok b) = ok b
  wrapped code (err e) = err (block_value code)
  wrapped code panic = panic

  -- The fields before the CRC.
  abbrev pub canonical_fields : CanonicalBlock → List ℕ → List ℕ
  canonical_fields cb value =
      write_array_length (canonical_length cb)
      ++ (write_uint (type_code cb)
          ++ (write_uint cb.block_number
              ++ (write_uint cb.block_control_flags ++ (write_uint cb.crc_type ++ value))))

  -- What is written, and the block with its new CRC.
  unfoldable pub marshal_canonical : CanonicalBlock → Result (List ℕ × CanonicalBlock)
  marshal_canonical cb = do
    value ← write_block cb.value
    let body = canonical_fields cb value
    (field, crc) ← marshal_crc cbor sums cb.crc_type cb.crc body
    ok (body ++ field, record cb { crc = crc })

  -- The buffer for the CRC starts with the array's length, written anew.
  unfoldable pub unmarshal_canonical : List ℕ → Result (CanonicalBlock × List ℕ)
  unfolding wrapped
  unmarshal_canonical input = do
    (l, r0) ← read_array_length input
    guard (l == 5 || l == 6) (array_length l)
    (code, r1) ← read_uint r0
    (number, r2) ← read_uint r1
    (bcf, r3) ← read_uint r2
    (crc_type, r4) ← read_uint r3
    (value, r5) ← wrapped code (read_block code r4)
    (crc, rest) ←
        unmarshal_crc cbor sums (l == 6) crc_type (write_array_length l ++ consumed r0 r5) r5
    ok (
      record {
        block_number = number;
        block_control_flags = bcf;
        crc_type = crc_type;
        crc = crc;
        value = value;
      },
      rest,
    )
