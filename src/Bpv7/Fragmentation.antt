-- ===== src/Bpv7/Fragmentation.antt =====
-- fragmentation.go up to fragmentExtensionBlocksLen: a bundle is cut into fragments. `head_size` is
-- the number of octets that `cboring.WriteByteStringLen` writes for a length.
use dtn.Prelude.{
  ℕ, zero, suc, ◌+◌, ◌-◌, min, bit_or, List, [], ◌∷◌, ◌++◌, Option, none, some, Bool, true, false,
  not, ◌&&◌, ◌||◌, ok, err, panic, ◌>>=◌, ◌>>◌, guard, length, take, drop, ltb, ◌==◌, if◌then◌else◌,
}
use mathlib.Core.Option
use dtn.Bpv7.Errors.{Result, fragmentation_forbidden, overhead_exceeds_mtu}
use dtn.Bpv7.Flags.{has, is_fragment, must_not_fragmented, replicate_block}
use dtn.Bpv7.Block.{
  CanonicalBlock, payload, payload_code, type_code, new_canonical_block, set_crc_type,
}
use dtn.Bpv7.Primary.{PrimaryBlock, dtn_version}
use dtn.Bpv7.Bundle.{Bundle, must_new_bundle, payload_block, add_extension_block, check_valid}
use dtn.Bpv7.Reassembly.{assert_payload}
use dtn.Bpv7.Codec.{Cbor, Checksums}
use dtn.Bpv7.Codec.Endpoint.{no_error}
use dtn.Bpv7.Codec.Primary.{marshal_primary}
use dtn.Bpv7.Codec.Canonical.{marshal_canonical}
pub mod Pieces
pub mod Whole
mod Tests

abbrev pub is_payload : CanonicalBlock → Bool
is_payload cb = type_code cb == payload_code

-- The primary block of a fragment, before its CRC is calculated.
unfoldable pub fragment_primary : PrimaryBlock → ℕ → ℕ → PrimaryBlock
fragment_primary pb offset total = record pb {
  bundle_control_flags = bit_or pb.bundle_control_flags is_fragment;
  fragment_offset = offset;
  total_data_length = total;
  crc = [];
}

-- A block belongs to the fragment at this index.
unfoldable pub goes_with : ℕ → CanonicalBlock → Bool
goes_with i cb = not (is_payload cb) && (i == 0 || has cb.block_control_flags replicate_block)

-- The loop over the canonical blocks that adds those that belong to a fragment.
unfoldable pub add_fragment_blocks : ℕ → Bundle → List CanonicalBlock → Bundle
add_fragment_blocks i b [] = b
add_fragment_blocks i b (cb ∷ cbs) =
    add_fragment_blocks i (if goes_with i cb then add_extension_block b cb else b) cbs

-- The payload block of the fragment that has these bytes.
unfoldable pub piece_block : CanonicalBlock → List ℕ → CanonicalBlock
piece_block block bytes =
    set_crc_type block.crc_type (new_canonical_block 0 block.block_control_flags (payload bytes))

-- The fragment at an index, with a payload of at most this size.
unfoldable pub fragment_at : Bundle → CanonicalBlock → List ℕ → ℕ → PrimaryBlock → ℕ → Bundle
fragment_at b block whole i primary size =
    let with_blocks = add_fragment_blocks i (must_new_bundle primary []) b.canonical_blocks in
    let bytes = take (min (i + size) (length whole) - i) (drop i whole) in
    add_extension_block with_blocks (piece_block block bytes)

module _ (cbor : Cbor) (sums : Checksums) where
  unfoldable pub fragment_primary_block : PrimaryBlock → ℕ → ℕ → Result (PrimaryBlock × ℕ)
  fragment_primary_block pb offset total = do
    (bytes, pb') ← marshal_primary cbor sums (fragment_primary pb offset total)
    ok (pb', length bytes)

  module _ (now mtu : ℕ) (b : Bundle) (block : CanonicalBlock) (whole : List ℕ)
      (lengths : ℕ × ℕ) where
    -- The fragment, checked, and the size that the index goes on by.
    unfoldable pub checked_fragment : ℕ → PrimaryBlock → ℕ → Result (Bundle × ℕ)
    checked_fragment i primary overhead = do
      guard (ltb overhead mtu) (overhead_exceeds_mtu i)
      errs ← check_valid now (fragment_at b block whole i primary (mtu - overhead))
      no_error errs
      ok (fragment_at b block whole i primary (mtu - overhead), mtu - overhead)

    -- One round of the loop, at an index.
    unfoldable pub fragment_round : ℕ → Result (Bundle × ℕ)
    fragment_round i = do
      (primary, primary_overhead) ← fragment_primary_block b.primary_block i (length whole)
      checked_fragment i primary (2 + primary_overhead + (if i == 0 then lengths.0 else lengths.1))

    go_on :
        (ℕ → Option (Result (List Bundle)))
        → ℕ
        → Result (Bundle × ℕ)
        → Option (Result (List Bundle))
    go_on others i (ok (f, size)) = Option.map (λ r. r >>= λ fs. ok (f ∷ fs)) (others (i + size))
    go_on others i (err e) = some (err e)
    go_on others i panic = some panic

    -- The loop over the payload. No result: out of fuel.
    unfoldable pub fragment_loop : ℕ → ℕ → Option (Result (List Bundle))
    unfolding go_on
    fragment_loop zero i = none
    fragment_loop (suc fuel) i =
        if ltb i (length whole)
        then go_on (fragment_loop fuel) i (fragment_round i)
        else some (ok [])

module _ (cbor : Cbor) (sums : Checksums) (head_size : ℕ → ℕ) where
  -- The block as its length is estimated: with a CRC32, and a payload without its bytes.
  unfoldable pub estimated_block : CanonicalBlock → CanonicalBlock
  estimated_block cb = set_crc_type 2 (
      if is_payload cb
      then new_canonical_block cb.block_number cb.block_control_flags (payload [])
      else cb)

  -- What a block adds to the first fragment and to the others.
  unfoldable pub block_lengths : ℕ → CanonicalBlock → Result (ℕ × ℕ)
  block_lengths mtu cb = do
    (bytes, marshalled) ← marshal_canonical cbor sums (estimated_block cb)
    let replicated = if has cb.block_control_flags replicate_block then length bytes else 0
    let head = head_size mtu - 1
    ok (
        if is_payload cb
        then (length bytes + head, replicated + length bytes + head)
        else (length bytes, replicated))

  unfoldable pub fragment_extension_blocks_len : ℕ → List CanonicalBlock → Result (ℕ × ℕ)
  fragment_extension_blocks_len mtu [] = ok (0, 0)
  fragment_extension_blocks_len mtu (cb ∷ cbs) = do
    (l, replicated) ← block_lengths mtu cb
    (first, others) ← fragment_extension_blocks_len mtu cbs
    ok (l + first, replicated + others)

  -- A single fragment is replaced by the bundle.
  unless_single : Bundle → List Bundle → List Bundle
  unless_single b (f ∷ []) = b ∷ []
  unless_single b fs = fs

  -- The loop, behind the payload and the lengths of the blocks.
  fragment_payload :
      ℕ → ℕ → Bundle → CanonicalBlock → List ℕ → Result (ℕ × ℕ) → Option (Result (List Bundle))
  unfolding unless_single
  fragment_payload now mtu b block whole (ok lengths) =
      Option.map (λ r. r >>= λ fs. ok (unless_single b fs))
        (fragment_loop cbor sums now mtu b block whole lengths (suc (length whole)) 0)
  fragment_payload now mtu b block whole (err e) = some (err e)
  fragment_payload now mtu b block whole panic = some panic

  fragment_of : ℕ → ℕ → Bundle → CanonicalBlock → Result (List ℕ) → Option (Result (List Bundle))
  unfolding fragment_payload
  fragment_of now mtu b block (ok whole) =
      fragment_payload now mtu b block whole (fragment_extension_blocks_len mtu b.canonical_blocks)
  fragment_of now mtu b block (err e) = some (err e)
  fragment_of now mtu b block panic = some panic

  fragment_block : ℕ → ℕ → Bundle → Result CanonicalBlock → Option (Result (List Bundle))
  unfolding fragment_of
  fragment_block now mtu b (ok block) = fragment_of now mtu b block (assert_payload block)
  fragment_block now mtu b (err e) = some (err e)
  fragment_block now mtu b panic = some panic

  -- Bundle.Fragment
  unfoldable pub fragment : ℕ → ℕ → Bundle → Option (Result (List Bundle))
  unfolding fragment_block
  fragment now mtu b =
      if has b.primary_block.bundle_control_flags must_not_fragmented
      then some (err fragmentation_forbidden)
      else fragment_block now mtu b (payload_block b)
