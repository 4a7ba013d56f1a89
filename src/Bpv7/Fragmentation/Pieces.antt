-- ===== src/Bpv7/Fragmentation/Pieces.antt =====
-- fragmentation.go: what a round of the loop of Bundle.Fragment makes.
use dtn.Prelude.{
  ℕ, ◌+◌, ◌-◌, min, ◌<◌, ◌≡◌, refl, ap, subst, ◌∙◌, List, [], ◌∷◌, ◌++◌, some, Bool, true, false,
  ok, >>=-eq-ok, guard-eq-ok, guard, length, take, drop, ltb, ltb→lt, ◌==◌, if-elim, arith, All,
  All-append,
}
use dtn.Bpv7.Errors.{Result, overhead_exceeds_mtu}
use dtn.Bpv7.Flags.{has, is_fragment, has-set_fragment}
use dtn.Bpv7.Block.{
  CanonicalBlock, payload_code, type_code, new_canonical_block, set_crc_type, block_type_code,
}
use dtn.Bpv7.Primary.{PrimaryBlock}
use dtn.Bpv7.Bundle.{
  Bundle, must_new_bundle, find_block, less_block, payload_block, add_extension_block, sort_blocks,
  next_number, extension_block, check_valid,
}
use dtn.Prelude.Sort.{insert_by, sort_onto, sort_by, All-sort_by}
use dtn.Bpv7.Reassembly.{assert_payload, payload_data}
use dtn.Bpv7.Codec.{Cbor, Checksums}
use dtn.Bpv7.Codec.Endpoint.{marshal_endpoint, no_error}
use dtn.Bpv7.Codec.Crc.{marshal_crc}
use dtn.Bpv7.Codec.Primary.{marshal_primary}
use dtn.Bpv7.Fragmentation.{
  fragment_primary, goes_with, add_fragment_blocks, piece_block, fragment_at,
  fragment_primary_block, checked_fragment, fragment_round,
}

pub NotPayload : CanonicalBlock → Type 0
NotPayload cb = (type_code cb == payload_code) ≡ false

module _ (less : CanonicalBlock → CanonicalBlock → Bool) (x : CanonicalBlock)
    (is_payload : (type_code x == payload_code) ≡ true) where
  sort-last :
      (sorted cbs : List CanonicalBlock)
      → sort_onto less sorted (cbs ++ x ∷ []) ≡ insert_by less x (sort_onto less sorted cbs)
  unfolding sort_onto
  sort-last sorted [] = refl
  sort-last sorted (cb ∷ cbs) = sort-last (insert_by less cb sorted) cbs

  find-insert :
      (cbs : List CanonicalBlock)
      → All NotPayload cbs
      → find_block payload_code (insert_by less x cbs) ≡ some x
  unfolding find_block insert_by NotPayload
  find-insert [] h = rw is_payload refl
  find-insert (cb ∷ cbs) (hb, h) =
      if-elim (λ l. find_block payload_code l ≡ some x) (less x cb) _ _ (λ _. rw is_payload refl)
        (λ _. rw hb (find-insert cbs h))

  -- A payload block that is added to blocks without one is the one that is found.
  find-sorted :
      (cbs : List CanonicalBlock)
      → All NotPayload cbs
      → find_block payload_code (sort_by less (cbs ++ x ∷ [])) ≡ some x
  unfolding sort_by
  find-sorted cbs h =
      rw (sort-last [] cbs)
        (find-insert (sort_onto less [] cbs) (All-sort_by less NotPayload cbs h))

add-NotPayload :
    (b : Bundle) (cb : CanonicalBlock)
    → All NotPayload b.canonical_blocks
    → NotPayload cb
    → All NotPayload (add_extension_block b cb).canonical_blocks
unfolding add_extension_block sort_blocks NotPayload type_code
add-NotPayload b cb h hc =
    All-sort_by less_block NotPayload _
      (All-append NotPayload b.canonical_blocks (_ ∷ []) h (hc, tt))

goes_with-NotPayload : (i : ℕ) (cb : CanonicalBlock) → goes_with i cb ≡ true → NotPayload cb
unfolding goes_with NotPayload
goes_with-NotPayload i cb h = ground arith

same_primary-add :
    (b : Bundle) (cb : CanonicalBlock) → (add_extension_block b cb).primary_block ≡ b.primary_block
unfolding add_extension_block
same_primary-add b cb = refl

-- What the loop over the canonical blocks leaves.
record KeepsOut (b c : Bundle) : Type 0 where
  same_primary : c.primary_block ≡ b.primary_block
  no_payload : All NotPayload c.canonical_blocks

add_fragment_blocks-KeepsOut :
    (i : ℕ) (b : Bundle) (cbs : List CanonicalBlock)
    → All NotPayload b.canonical_blocks
    → KeepsOut b (add_fragment_blocks i b cbs)
unfolding add_fragment_blocks
add_fragment_blocks-KeepsOut i b [] h = record { same_primary = refl; no_payload = h }
add_fragment_blocks-KeepsOut i b (cb ∷ cbs) h =
    if-elim (λ c. KeepsOut b (add_fragment_blocks i c cbs)) (goes_with i cb) _ _
      (λ e.
        let added = add_extension_block b cb in
        let k =
          add_fragment_blocks-KeepsOut i added cbs
            (add-NotPayload b cb h (goes_with-NotPayload i cb e)) in
        record { same_primary = k.same_primary ∙ same_primary-add b cb; no_payload = k.no_payload })
      (λ _. add_fragment_blocks-KeepsOut i b cbs h)

-- A fragment with `n` octets of the payload, or all that are left, from an offset on.
pub record IsPiece (whole : List ℕ) (i n : ℕ) (f : Bundle) : Type 0 where
  pub offset : f.primary_block.fragment_offset ≡ i
  pub total : f.primary_block.total_data_length ≡ length whole
  pub flagged : has f.primary_block.bundle_control_flags is_fragment ≡ true
  pub has_bytes : payload_data f ≡ ok (take (min (i + n) (length whole) - i) (drop i whole))

piece_found :
    (b : Bundle) (block : CanonicalBlock) (bytes : List ℕ)
    → All NotPayload b.canonical_blocks
    → payload_data (add_extension_block b (piece_block block bytes)) ≡ ok bytes
unfolding payload_data payload_block extension_block add_extension_block sort_blocks piece_block
    set_crc_type new_canonical_block assert_payload type_code block_type_code
piece_found b block bytes h =
    let found =
      find-sorted less_block
        (record (piece_block block bytes) {
          block_number = next_number (piece_block block bytes) b.canonical_blocks;
        })
        refl b.canonical_blocks h in
    rw found refl

pair_eq :
    {A B : Type 0} {a c : A} {b d : B}
    → ◌≡◌ {A = Result (A × B)} (ok (a, b)) (ok (c, d))
    → (a ≡ c) × (b ≡ d)
pair_eq h = (cc, cc)

HasFields : ℕ → ℕ → PrimaryBlock → Type 0
HasFields i total pb =
    (pb.fragment_offset ≡ i)
    × (pb.total_data_length ≡ total)
    × (has pb.bundle_control_flags is_fragment ≡ true)

fragment_at-IsPiece :
    (b : Bundle) (block : CanonicalBlock) (whole : List ℕ) (i : ℕ) (primary : PrimaryBlock)
    (size : ℕ)
    → HasFields i (length whole) primary
    → IsPiece whole i size (fragment_at b block whole i primary size)
unfolding fragment_at must_new_bundle sort_blocks sort_by sort_onto HasFields
fragment_at-IsPiece b block whole i primary size (offset, total, flagged) =
    let k = add_fragment_blocks-KeepsOut i (must_new_bundle primary []) b.canonical_blocks tt in
    let same : (fragment_at b block whole i primary size).primary_block ≡ primary =
      same_primary-add _ _ ∙ k.same_primary in
    record {
      offset = ap (λ p. p.fragment_offset) same ∙ offset;
      total = ap (λ p. p.total_data_length) same ∙ total;
      flagged = ap (λ p. has p.bundle_control_flags is_fragment) same ∙ flagged;
      has_bytes = piece_found _ block _ k.no_payload;
    }

module _ (cbor : Cbor) (sums : Checksums) where
  -- What fragmentPrimaryBlock keeps and sets.
  fragment_primary-HasFields :
      (pb : PrimaryBlock) (i total : ℕ) {pb' : PrimaryBlock} {l : ℕ}
      → fragment_primary_block cbor sums pb i total ≡ ok (pb', l)
      → HasFields i total pb'
  unfolding fragment_primary_block fragment_primary marshal_primary HasFields
  fragment_primary-HasFields pb i total h =
      let ((bytes, made), marshalled, h1) =
        >>=-eq-ok (marshal_primary cbor sums (fragment_primary pb i total))
          (λ (bytes, made). ok (made, length bytes)) h in
      let (destination, _, m1) = >>=-eq-ok (marshal_endpoint cbor pb.destination) _ marshalled in
      let (source, _, m2) = >>=-eq-ok (marshal_endpoint cbor pb.source_node) _ m1 in
      let (report, _, m3) = >>=-eq-ok (marshal_endpoint cbor pb.report_to) _ m2 in
      let ((field, crc), _, m4) = >>=-eq-ok (marshal_crc cbor sums pb.crc_type [] _) _ m3 in
      let (_, same) = pair_eq m4 in
      subst (HasFields i total) (same ∙ (pair_eq h1).0)
        (refl, refl, has-set_fragment pb.bundle_control_flags)

  module _ (now mtu : ℕ) (b : Bundle) (block : CanonicalBlock) (whole : List ℕ)
      (lengths : ℕ × ℕ) where
    checked_fragment-size :
        (i : ℕ) (primary : PrimaryBlock) (overhead : ℕ) {f : Bundle} {n : ℕ}
        → checked_fragment cbor sums now mtu b block whole lengths i primary overhead ≡ ok (f, n)
        → (fragment_at b block whole i primary n ≡ f) × (0 < n)
    unfolding checked_fragment
    checked_fragment-size i primary overhead {f} h =
        let (_, fits, h1) = >>=-eq-ok (guard (ltb overhead mtu) (overhead_exceeds_mtu i)) _ h in
        let (errs, _, h2) =
          >>=-eq-ok (check_valid now (fragment_at b block whole i primary (mtu - overhead))) _ h1 in
        let (_, _, h3) = >>=-eq-ok (no_error errs) _ h2 in
        let (same, size) = pair_eq h3 in
        let small = ltb→lt overhead mtu (guard-eq-ok _ (overhead_exceeds_mtu i) fits) in
        (
          subst (λ s. fragment_at b block whole i primary s ≡ f) size same,
          omega (arith, small, size),
        )

    -- A round that ends without an error makes a fragment with a part of the payload, and goes on
    -- behind at least one octet.
    pub fragment_round-IsPiece :
        (i : ℕ) {f : Bundle} {n : ℕ}
        → fragment_round cbor sums now mtu b block whole lengths i ≡ ok (f, n)
        → IsPiece whole i n f × (0 < n)
    unfolding fragment_round
    fragment_round-IsPiece i {f} {n} h =
        let ((primary, l), made, h1) =
          >>=-eq-ok (fragment_primary_block cbor sums b.primary_block i (length whole)) _ h in
        let (same, some_octets) = checked_fragment-size i primary _ h1 in
        let fields = fragment_primary-HasFields b.primary_block i (length whole) made in
        (
          subst (IsPiece whole i n) same (fragment_at-IsPiece b block whole i primary n fields),
          some_octets,
        )
