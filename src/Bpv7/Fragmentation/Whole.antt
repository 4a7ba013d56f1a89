-- ===== src/Bpv7/Fragmentation/Whole.antt =====
-- fragmentation.go: the loop of Bundle.Fragment ends, and its fragments are reassembled to the
-- payload.
use dtn.Prelude.{
  ℕ, zero, suc, ◌+◌, ◌-◌, ◌%◌, min, ◌≤◌, ◌<◌, ◌≡◌, refl, sym, ap₂, List, [], ◌∷◌, Option, none,
  some, true, false, ok, err, panic, ◌>>=◌, >>=-eq-ok, length, take, drop, ◌==◌, ltb, ltb→lt, leb,
  if-elim, arith, All, length-take, length-drop,
}
use mathlib.Core.Option
use dtn.Prelude.Int.{u64_mod}
use dtn.Prelude.Sort.{IsSortedBy, sort_by-sorted}
use dtn.Bpv7.Errors.{Error, Result}
use dtn.Bpv7.Flags.{has, must_not_fragmented}
use dtn.Bpv7.Block.{CanonicalBlock}
use dtn.Bpv7.Bundle.{Bundle, payload_block}
use dtn.Bpv7.Reassembly.{
  less_offset, check_gaps, assert_payload, payload_data, check_total, prepare_reassembly,
  merge_payload,
}
use dtn.Bpv7.Reassembly.Merge.{Advances}
use dtn.Bpv7.Reassembly.Whole.{IsFragmentOf, prepare-merge}
use dtn.Bpv7.Codec.{Cbor, Checksums}
use dtn.Bpv7.Fragmentation.{
  fragment_round, go_on, fragment_loop, unless_single, fragment_extension_blocks_len,
  fragment_payload, fragment_of, fragment_block, fragment,
}
use dtn.Bpv7.Fragmentation.Pieces.{IsPiece, fragment_round-IsPiece}

-- Fragments that cut the payload from an index on into pieces, in order and without a gap.
pub data Cuts (whole : List ℕ) : ℕ → List Bundle → Type 0 where
  done : {i : ℕ} → length whole ≤ i → Cuts whole i []
  cut :
      {i n : ℕ} {f : Bundle} {fs : List Bundle}
      → i < length whole
      → 0 < n
      → IsPiece whole i n f
      → Cuts whole (i + n) fs
      → Cuts whole i (f ∷ fs)

-- What the loop returns: never out of fuel, and the pieces unless there is an error.
pub data Returns (whole : List ℕ) (i : ℕ) : Option (Result (List Bundle)) → Type 0 where
  pieces : {fs : List Bundle} → Cuts whole i fs → Returns whole i (some (ok fs))
  fails : {e : Error} → Returns whole i (some (err e))
  panics : Returns whole i (some panic)

module _ (cbor : Cbor) (sums : Checksums) (now mtu : ℕ) (b : Bundle) (block : CanonicalBlock)
    (whole : List ℕ) (lengths : ℕ × ℕ) where
  go_on-Returns :
      (fuel i : ℕ) (r : Result (Bundle × ℕ))
      → fragment_round cbor sums now mtu b block whole lengths i ≡ r
      → i < length whole
      → ((n : ℕ)
          → 0 < n
          → Returns whole
              (i + n)
              (fragment_loop cbor sums now mtu b block whole lengths fuel (i + n)))
      → Returns whole i (
          go_on cbor sums now mtu b block whole lengths
            (fragment_loop cbor sums now mtu b block whole lengths fuel)
            i
            r)
  unfolding go_on
  go_on-Returns fuel i (ok (f, n)) h inside rest =
      let (piece, positive) = fragment_round-IsPiece cbor sums now mtu b block whole lengths i h in
      cons _ _ piece positive inside (rest n positive)
    where
      cons :
          (n : ℕ) (o : Option (Result (List Bundle)))
          → IsPiece whole i n f
          → 0 < n
          → i < length whole
          → Returns whole (i + n) o
          → Returns whole i (Option.map (λ r. r >>= λ fs. ok (f ∷ fs)) o)
      cons n none piece positive inside r = elim r [ ]
      cons n (some (ok fs)) piece positive inside (pieces c) = pieces (cut inside positive piece c)
      cons n (some (err e)) piece positive inside fails = fails
      cons n (some panic) piece positive inside panics = panics
  go_on-Returns fuel i (err e) h inside rest = fails
  go_on-Returns fuel i panic h inside rest = panics

  -- The loop returns on one round more than there are octets left.
  fragment_loop-Returns :
      (fuel i : ℕ)
      → length whole ≤ fuel + i
      → Returns whole i (fragment_loop cbor sums now mtu b block whole lengths (suc fuel) i)
  unfolding fragment_loop
  fragment_loop-Returns zero i h =
      if-elim (Returns whole i) (ltb i (length whole)) _ _ (λ e. absurd (ground (arith, e)))
        (λ e. pieces (done (omega arith)))
  fragment_loop-Returns (suc fuel) i h =
      if-elim (Returns whole i) (ltb i (length whole)) _ _
        (λ e.
          go_on-Returns (suc fuel) i _ refl (ltb→lt i (length whole) e)
            (λ n positive. fragment_loop-Returns fuel (i + n) (omega arith)))
        (λ e. pieces (done (ground (arith, e))))

module _ (whole : List ℕ) where
  abbrev end_of : ℕ → ℕ → ℕ
  end_of i n = min (i + n) (length whole)

  abbrev bytes_of : ℕ → ℕ → List ℕ
  bytes_of i n = take (end_of i n - i) (drop i whole)

  size_of : (i n : ℕ) → i < length whole → length (bytes_of i n) ≡ end_of i n - i
  size_of i n inside =
      omega (arith, length-take (end_of i n - i) (drop i whole), length-drop i whole)

  Cuts-parts : (i : ℕ) (fs : List Bundle) → Cuts whole i fs → All (IsFragmentOf whole) fs
  Cuts-parts i [] c = tt
  Cuts-parts i (f ∷ fs) (cut {n = n} inside positive p c) = (
    record {
      part = record {
        bytes = bytes_of i n;
        is_payload = p.has_bytes;
        within = omega (arith, p.offset, size_of i n inside);
        same = ap₂ (λ k j. take k (drop j whole)) (sym (size_of i n inside)) (sym p.offset);
      };
      total = p.total;
    },
    Cuts-parts (i + n) fs c,
  )

  -- No fragment overlaps the one before it.
  Cuts-Advances :
      (i : ℕ) (fs : List Bundle)
      → Cuts whole i fs
      → (last : ℕ) → last ≤ min i (length whole)
      → Advances last fs
  Cuts-Advances i [] c last h = tt
  Cuts-Advances i (f ∷ fs) (cut {n = n} inside positive p c) last h = (
    bytes_of i n,
    p.has_bytes,
    omega (arith, p.offset, size_of i n inside),
    Cuts-Advances (i + n) fs c _ (omega (arith, p.offset, size_of i n inside)),
  )

  -- prepareReassembly finds no gap.
  Cuts-gaps :
      (i : ℕ) (fs : List Bundle)
      → length whole < u64_mod
      → Cuts whole i fs
      → check_gaps (min i (length whole)) fs ≡ ok (length whole)
  unfolding check_gaps
  Cuts-gaps i [] small (done past) =
      let e : min i (length whole) ≡ length whole = omega arith in rw e refl
  Cuts-gaps i (f ∷ fs) small (cut {n = n} inside positive p c) =
      let reached : leb f.primary_block.fragment_offset (min i (length whole)) ≡ true =
        ground (arith, p.offset) in
      let next : (f.primary_block.fragment_offset + length (bytes_of i n)) % u64_mod ≡ end_of i n =
        omega (arith, p.offset, size_of i n inside) in
      rw (p.flagged, reached, p.has_bytes) (rw next (Cuts-gaps (i + n) fs small c))

  -- Later fragments start later.
  Cuts-later :
      (i j : ℕ) (fs : List Bundle) (b : Bundle)
      → b.primary_block.fragment_offset ≡ i
      → i ≤ j
      → Cuts whole j fs
      → All (λ d. less_offset d b ≡ false) fs
  unfolding less_offset
  Cuts-later i j [] b h le c = tt
  Cuts-later i j (f ∷ fs) b h le (cut {n = n} inside positive p c) =
      (ground (arith, p.offset), Cuts-later i (j + n) fs b h (omega arith) c)

  Cuts-IsSortedBy : (i : ℕ) (fs : List Bundle) → Cuts whole i fs → IsSortedBy less_offset fs
  Cuts-IsSortedBy i [] c = tt
  Cuts-IsSortedBy i (f ∷ fs) (cut {n = n} inside positive p c) =
      (Cuts-later i (i + n) fs f p.offset (omega arith) c, Cuts-IsSortedBy (i + n) fs c)

  -- prepareReassembly accepts the fragments as they are.
  Cuts-prepared :
      (f : Bundle) (fs : List Bundle)
      → length whole < u64_mod
      → Cuts whole 0 (f ∷ fs)
      → prepare_reassembly (f ∷ fs) ≡ ok (f ∷ fs)
  unfolding prepare_reassembly check_total
  Cuts-prepared f fs small c =
      let sorted = sort_by-sorted less_offset (f ∷ fs) (Cuts-IsSortedBy 0 (f ∷ fs) c) in
      let start : min 0 (length whole) ≡ 0 = omega arith in
      let gaps : check_gaps 0 (f ∷ fs) ≡ ok (length whole) =
        rw start at (Cuts-gaps 0 (f ∷ fs) small c) in
      let parts = Cuts-parts 0 (f ∷ fs) c in
      let total : (f.primary_block.total_data_length == length whole) ≡ true =
        ground (arith, parts.0.total) in
      rw (sorted, gaps) (rw total refl)

  pub Cuts-merged :
      (f : Bundle) (fs : List Bundle)
      → length whole < u64_mod
      → Cuts whole 0 (f ∷ fs)
      → (prepare_reassembly (f ∷ fs) ≡ ok (f ∷ fs)) × (merge_payload 0 (f ∷ fs) ≡ ok whole)
  Cuts-merged f fs small c =
      let prepared = Cuts-prepared f fs small c in
      (
        prepared,
        prepare-merge whole (f ∷ fs) small (Cuts-parts 0 (f ∷ fs) c) prepared
            (Cuts-Advances 0 (f ∷ fs) c 0 (omega arith)),
      )

-- What Bundle.Fragment returns for a bundle with a payload: no fragment of an empty payload, the
-- bundle itself, or fragments that are cut in order and reassembled; or an error or a panic of the
-- serialization.
pub data Fragmented (b : Bundle) (whole : List ℕ) : Option (Result (List Bundle)) → Type 0 where
  nothing : whole ≡ [] → Fragmented b whole (some (ok []))
  itself : Fragmented b whole (some (ok (b ∷ [])))
  apart :
      {f g : Bundle} {fs : List Bundle}
      → Cuts whole 0 (f ∷ g ∷ fs)
      → prepare_reassembly (f ∷ g ∷ fs) ≡ ok (f ∷ g ∷ fs)
      → merge_payload 0 (f ∷ g ∷ fs) ≡ ok whole
      → Fragmented b whole (some (ok (f ∷ g ∷ fs)))
  refused : {e : Error} → Fragmented b whole (some (err e))
  panicked : Fragmented b whole (some panic)

empty_payload : (whole : List ℕ) → length whole ≤ 0 → whole ≡ []
empty_payload [] h = refl
empty_payload (x ∷ xs) h = absurd (omega arith)

module _ (cbor : Cbor) (sums : Checksums) (head_size : ℕ → ℕ) (b : Bundle) (whole : List ℕ)
    (small : length whole < u64_mod) where
  loop-Fragmented :
      (o : Option (Result (List Bundle)))
      → Returns whole 0 o
      → Fragmented b whole
          (Option.map (λ r. r >>= λ fs. ok (unless_single cbor sums head_size b fs)) o)
  unfolding unless_single
  loop-Fragmented none r = elim r [ ]
  loop-Fragmented (some (ok [])) (pieces (done past)) = nothing (empty_payload whole past)
  loop-Fragmented (some (ok (f ∷ []))) (pieces c) = itself
  loop-Fragmented (some (ok (f ∷ g ∷ fs))) (pieces c) =
      let (prepared, merged) = Cuts-merged whole f (g ∷ fs) small c in apart c prepared merged
  loop-Fragmented (some (err e)) fails = refused
  loop-Fragmented (some panic) panics = panicked

  cut_up :
      (now mtu : ℕ) (block : CanonicalBlock) (lengths : Result (ℕ × ℕ))
      → Fragmented b whole (fragment_payload cbor sums head_size now mtu b block whole lengths)
  unfolding fragment_payload
  cut_up now mtu block (ok lengths) =
      loop-Fragmented _ (
        fragment_loop-Returns cbor sums now mtu b block whole lengths (length whole) 0
          (omega arith))
  cut_up now mtu block (err e) = refused
  cut_up now mtu block panic = panicked

  -- Bundle.Fragment returns for every MTU, on one round more than the payload has octets. Unless
  -- there is an error or a panic, it returns no fragment for an empty payload, the bundle itself,
  -- or at least two fragments with consecutive pieces of the payload, which prepareReassembly
  -- accepts as they are and mergeFragmentPayload puts together to the payload, if that has less
  -- than 2 ^ 64 octets.
  pub fragment-Fragmented :
      (now mtu : ℕ)
      → payload_data b ≡ ok whole
      → Fragmented b whole (fragment cbor sums head_size now mtu b)
  unfolding fragment fragment_block fragment_of payload_data
  fragment-Fragmented now mtu h =
      let (block, found, bytes) = >>=-eq-ok (payload_block b) assert_payload h in
      if-elim (Fragmented b whole) (has b.primary_block.bundle_control_flags must_not_fragmented) _
        _ (λ _. refused)
        (λ _.
          rw (found, bytes)
            (cut_up now mtu block
              (fragment_extension_blocks_len cbor sums head_size mtu b.canonical_blocks)))
