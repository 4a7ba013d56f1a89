-- ===== src/Bpv7/Codec/Bundle/RoundTrip.antt =====
-- What Bundle.MarshalCbor writes is read back by UnmarshalCbor.
use dtn.Prelude.{
  ℕ, zero, suc, ◌<◌, ◌≡◌, refl, List, [], ◌∷◌, ◌++◌, append_assoc, some, ok, err, ◌>>=◌, arith, All,
  length,
}
use dtn.Bpv7.Errors.{break_flag}
use dtn.Bpv7.Endpoint.{EndpointType}
use dtn.Bpv7.Block.{CanonicalBlock}
use dtn.Bpv7.Bundle.{Bundle, check_valid}
use dtn.Bpv7.Codec.{Cbor, CborLaws, Checksums}
use dtn.Bpv7.Codec.Primary.RoundTrip.{IsWritable, primary_written}
use dtn.Bpv7.Codec.Canonical.{unmarshal_canonical}
use dtn.Bpv7.Codec.Canonical.RoundTrip.{IsWritableBlock, canonical_written}
use dtn.Bpv7.Codec.Bundle.{
  marshal_blocks, marshal_bundle, unmarshal_blocks, unmarshal_bundle, unmarshal_rest, with_primary,
}

-- The same blocks, up to their CRCs.
abbrev pub SameButCrc : List CanonicalBlock → List CanonicalBlock → Type 0
SameButCrc [] [] = Unit
SameButCrc [] (d ∷ ds) = ⊥
SameButCrc (c ∷ cs) [] = ⊥
SameButCrc (c ∷ cs) (d ∷ ds) = (d ≡ record c { crc = d.crc }) × SameButCrc cs ds

-- A bundle that is written, as it is read back.
pub record IsReadBack (b c : Bundle) : Type 0 where
  pub primary : c.primary_block ≡ record b.primary_block { crc = c.primary_block.crc }
  pub blocks : SameButCrc b.canonical_blocks c.canonical_blocks

module _ (cbor : Cbor) (sums : Checksums) (laws : CborLaws cbor) where
  canonical_end :
      (rest : List ℕ) → unmarshal_canonical cbor sums (cbor.break_code ∷ rest) ≡ err break_flag
  unfolding unmarshal_canonical
  canonical_end rest = rw (laws.break_back rest) refl

  blocks_end :
      (fuel : ℕ) (rest : List ℕ)
      → 0 < fuel
      → unmarshal_blocks cbor sums fuel (cbor.break_code ∷ rest) ≡ some (ok [])
  unfolding unmarshal_blocks
  blocks_end zero rest h = absurd (omega arith)
  blocks_end (suc fuel) rest h = rw (canonical_end rest, unmarshal_blocks) refl

  blocks_more :
      (fuel n : ℕ) (cb : CanonicalBlock) (cbs : List CanonicalBlock) (first more : List ℕ)
      → suc n < fuel
      → unmarshal_canonical cbor sums (first ++ more) ≡ ok (cb, more)
      → ((k : ℕ) → n < k → unmarshal_blocks cbor sums k more ≡ some (ok cbs))
      → unmarshal_blocks cbor sums fuel (first ++ more) ≡ some (ok (cb ∷ cbs))
  unfolding unmarshal_blocks
  blocks_more zero n cb cbs first more l head tail = absurd (omega arith)
  blocks_more (suc fuel) n cb cbs first more l head tail =
      rw (head, unmarshal_blocks) (rw (tail fuel (omega arith)) refl)

  blocks_written :
      (cbs : List CanonicalBlock)
      → All (IsWritableBlock cbor sums) cbs
      → (bytes : List ℕ) × (cbs' : List CanonicalBlock) × (marshal_blocks cbor sums cbs
          ≡ ok (bytes, cbs'))
        × SameButCrc cbs cbs'
        × ((fuel : ℕ) (rest : List ℕ)
            → length cbs < fuel
            → unmarshal_blocks cbor sums fuel (bytes ++ (cbor.break_code ∷ rest)) ≡ some (ok cbs'))
  unfolding marshal_blocks
  blocks_written [] h = ([], [], refl, tt, λ fuel rest l. blocks_end fuel rest l)
  blocks_written (cb ∷ cbs) h =
      let (first, crc, written, back) = canonical_written cbor sums laws cb h.0 in
      let (more, cbs', written', same, back') = blocks_written cbs h.1 in
      (
        first ++ more,
        record cb { crc = crc } ∷ cbs',
        rw (written, written') refl,
        (refl, same),
        λ fuel rest l. rw (append_assoc first more (cbor.break_code ∷ rest)) (
            blocks_more fuel (length cbs) (record cb { crc = crc }) cbs' first
              (more ++ (cbor.break_code ∷ rest)) l (back _) (λ k m. back' k rest m)),
      )

  -- A bundle whose primary block and canonical blocks are in range, with valid endpoints and known
  -- types of CRC, is written without an error. What is written is read back, if the loop may run once
  -- more than there are blocks: the same bundle up to the CRCs that writing it has set, with the
  -- result of CheckValid on it, where the CBOR library reads back what it writes.
  pub unmarshal-marshal_bundle :
      (fuel now : ℕ) (b : Bundle) (d s r : EndpointType)
      → IsWritable b.primary_block d s r
      → All (IsWritableBlock cbor sums) b.canonical_blocks
      → length b.canonical_blocks < fuel
      → (bytes : List ℕ) × (c : Bundle) × (marshal_bundle cbor sums b ≡ ok (bytes, c))
        × IsReadBack b c
        × (unmarshal_bundle cbor sums fuel now bytes
            ≡ some (check_valid now c >>= λ errs. ok (c, errs)))
  unfolding marshal_bundle unmarshal_bundle unmarshal_rest with_primary
  unmarshal-marshal_bundle fuel now b d s r w ws l =
      let (primary, crc, written, back) = primary_written cbor sums laws b.primary_block d s r w in
      let (blocks, cbs, written', same, back') = blocks_written b.canonical_blocks ws in
      (
        cbor.indefinite_array ∷ (primary ++ (blocks ++ (cbor.break_code ∷ []))),
        record { primary_block = record b.primary_block { crc = crc }; canonical_blocks = cbs },
        rw (written, written') refl,
        record { primary = refl; blocks = same },
        rw
            (
              laws.expect_back cbor.indefinite_array
                  (primary ++ (blocks ++ (cbor.break_code ∷ []))),
              back (blocks ++ (cbor.break_code ∷ [])),
              back' fuel [] l,
            )
            refl,
      )
