-- ===== src/Bpv7/Codec/Bundle.antt =====
-- Bundle.MarshalCbor and UnmarshalCbor in bundle.go. A bundle is read into a zero one; what follows
-- the bundle is left unread, and is not in the result.
pub mod RoundTrip
use dtn.Prelude.{
  ℕ, zero, suc, List, [], ◌∷◌, ◌++◌, Option, none, some, Bool, true, false, Run, ok, err, panic,
  ◌>>=◌, ◌>>◌, if◌then◌else◌,
}
use mathlib.Core.Option
use dtn.Bpv7.Errors.{Error, Result, break_flag}
use dtn.Bpv7.Block.{CanonicalBlock}
use dtn.Bpv7.Bundle.{Bundle, check_valid}
use dtn.Bpv7.Codec.{Cbor, Checksums}
use dtn.Bpv7.Codec.Primary.{marshal_primary, unmarshal_primary}
use dtn.Bpv7.Codec.Canonical.{marshal_canonical, unmarshal_canonical}

abbrev pub is_break : Error → Bool
is_break break_flag = true
is_break _ = false

abbrev pub prepend : CanonicalBlock → Result (List CanonicalBlock) → Result (List CanonicalBlock)
prepend cb r = r >>= λ cbs. ok (cb ∷ cbs)

module _ (cbor : Cbor) (sums : Checksums) where
  -- The blocks' bytes, and the blocks with their new CRCs.
  unfoldable pub marshal_blocks : List CanonicalBlock → Result (List ℕ × List CanonicalBlock)
  marshal_blocks [] = ok ([], [])
  marshal_blocks (cb ∷ cbs) = do
    (bytes, cb') ← marshal_canonical cbor sums cb
    (rest, cbs') ← marshal_blocks cbs
    ok (bytes ++ rest, cb' ∷ cbs')

  unfoldable pub marshal_bundle : Bundle → Result (List ℕ × Bundle)
  marshal_bundle b = do
    (bytes, primary) ← marshal_primary cbor sums b.primary_block
    (blocks, canonicals) ← marshal_blocks b.canonical_blocks
    ok (
      cbor.indefinite_array ∷ (bytes ++ (blocks ++ (cbor.break_code ∷ []))),
      record { primary_block = primary; canonical_blocks = canonicals },
    )

  -- The loop of UnmarshalCbor, which ends at the break code. No result: out of fuel.
  unfoldable pub unmarshal_blocks : ℕ → List ℕ → Option (Result (List CanonicalBlock))
  unmarshal_blocks zero r = none
  unmarshal_blocks (suc fuel) r = elim (unmarshal_canonical cbor sums r) [
    | ok (cb, r') ↦ Option.map (prepend cb) (unmarshal_blocks fuel r')
    | err e ↦ some (if is_break e then ok [] else err e)
    | panic ↦ some panic
  ]

  with_primary : ℕ → Bundle → Result (List CanonicalBlock) → Result (Bundle × List Error)
  with_primary now b blocks = do
    cbs ← blocks
    let b' : Bundle = record b { canonical_blocks = cbs }
    errs ← check_valid now b'
    ok (b', errs)

  unmarshal_rest : ℕ → ℕ → Result (Bundle × List ℕ) → Option (Result (Bundle × List Error))
  unmarshal_rest fuel now (ok (b, r)) = Option.map (with_primary now b) (unmarshal_blocks fuel r)
  unmarshal_rest fuel now (err e) = some (err e)
  unmarshal_rest fuel now panic = some panic

  -- The bundle, and the errors of its CheckValid, which are returned with it.
  unfoldable pub unmarshal_bundle : ℕ → ℕ → List ℕ → Option (Result (Bundle × List Error))
  unfolding unmarshal_rest with_primary
  unmarshal_bundle fuel now input = unmarshal_rest fuel now (do
    r ← cbor.read_expect cbor.indefinite_array input
    (primary, r') ← unmarshal_primary cbor sums r
    ok (record { primary_block = primary; canonical_blocks = [] }, r'))
