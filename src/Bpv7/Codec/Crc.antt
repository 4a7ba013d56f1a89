-- ===== src/Bpv7/Codec/Crc.antt =====
-- crc.go: the checksum field of a block.
use dtn.Prelude.{
  ℕ, zero, suc, ◌-◌, ◌%◌, ◌/◌, ◌^◌, ◌≤◌, bytes_eq, bytes_eq_refl, length-append, take-append, inl,
  inr, Bool-cases, not, >>=-eq-ok, ◌<◌, ◌≡◌, refl, sym, ap, ◌∙◌, List, [], ◌∷◌, ◌++◌, Bool, true,
  false, ok, err, panic, subst, ◌>>=◌, ◌>>◌, guard, length, take, ◌==◌, if◌then◌else◌, append_assoc,
  arith,
}
use dtn.Prelude.Int.{u64_mod}
use dtn.Bpv7.Errors.{Result, unknown_crc_type, invalid_crc}
use dtn.Bpv7.Codec.{Cbor, CborLaws, Checksums}

unfoldable pub empty_crc : ℕ → Result (List ℕ)
empty_crc t =
    if t == 0
    then ok []
    else if t == 1
    then ok (0 ∷ 0 ∷ [])
    else if t == 2
    then ok (0 ∷ 0 ∷ 0 ∷ 0 ∷ [])
    else err (unknown_crc_type t)

-- `binary.BigEndian.PutUint16` and `PutUint32`
abbrev pub put_uint16 : ℕ → List ℕ
put_uint16 n = n / 2 ^ 8 % 256 ∷ n % 256 ∷ []

abbrev pub put_uint32 : ℕ → List ℕ
put_uint32 n = n / 2 ^ 24 % 256 ∷ n / 2 ^ 16 % 256 ∷ n / 2 ^ 8 % 256 ∷ n % 256 ∷ []

-- What a reader has consumed of its input when `left` is left: the contents of the TeeReader's
-- buffer.
abbrev pub consumed : List ℕ → List ℕ → List ℕ
consumed input left = take (length input - length left) input

module _ (cbor : Cbor) (sums : Checksums) where
  -- calculateCRCBuff
  unfoldable pub calculate_crc : List ℕ → ℕ → Result (List ℕ)
  unfolding empty_crc
  calculate_crc buff t = do
    data' ← empty_crc t
    let buff' = buff ++ cbor.write_byte_string data'
    ok (
        if t == 1
        then put_uint16 (sums.crc16 buff')
        else if t == 2
        then put_uint32 (sums.crc32 buff')
        else data')

  -- The end of the two MarshalCbor: what is written behind the block's other fields, and its CRC.
  unfoldable pub marshal_crc : ℕ → List ℕ → List ℕ → Result (List ℕ × List ℕ)
  marshal_crc t old body =
      if t == 0
      then ok ([], old)
      else (calculate_crc body t >>= λ v. ok (cbor.write_byte_string v, v))

  -- The end of the two UnmarshalCbor, if the block's length says that there is a CRC.
  unfoldable pub unmarshal_crc : Bool → ℕ → List ℕ → List ℕ → Result (List ℕ × List ℕ)
  unmarshal_crc false t buff r = ok ([], r)
  unmarshal_crc true t buff r = do
    calculated ← calculate_crc buff t
    (value, r') ← cbor.read_byte_string r
    guard (bytes_eq calculated value) invalid_crc
    ok (value, r')

pub consumed-append : (body left : List ℕ) → consumed (body ++ left) left ≡ body
consumed-append body left =
    let size : length (body ++ left) - length left ≡ length body =
      omega (arith, length-append body left) in
    ap (λ n. take n (body ++ left)) size ∙ take-append body left

pair_inj :
    {x y z w : List ℕ}
    → ◌≡◌ {A = Result (List ℕ × List ℕ)} (ok (x, y)) (ok (z, w))
    → (x ≡ z) × (y ≡ w)
pair_inj h = (cc, cc)

list_inj : {x y : List ℕ} → ◌≡◌ {A = Result (List ℕ)} (ok x) (ok y) → x ≡ y
list_inj h = cc

abbrev length_of : Result (List ℕ) → ℕ
length_of (ok v) = length v
length_of (err e) = 0
length_of panic = 0

empty_crc-length : (t : ℕ) (v : List ℕ) → empty_crc t ≡ ok v → length v ≤ 4
unfolding empty_crc
empty_crc-length t v h =
    let same : length_of (empty_crc t) ≡ length v = ap length_of h in
    let small : length_of (empty_crc t) ≤ 4 = ground arith in omega (arith, same, small)

module _ (cbor : Cbor) (sums : Checksums) (laws : CborLaws cbor) where
  calculate_crc-length :
      (buff : List ℕ) (t : ℕ) (v : List ℕ) → calculate_crc cbor sums buff t ≡ ok v → length v ≤ 4
  unfolding calculate_crc
  calculate_crc-length buff t v h =
      let (data', e, h') = >>=-eq-ok (empty_crc t) _ h in
      let same : length_of (
            ok (
              if t == 1
              then put_uint16 (sums.crc16 (buff ++ cbor.write_byte_string data'))
              else if t == 2
              then put_uint32 (sums.crc32 (buff ++ cbor.write_byte_string data'))
              else data'))
          ≡ length v =
        ap length_of h' in
      ground (arith, same, empty_crc-length t data' e)

  pub crc_back :
      (t : ℕ) (body rest : List ℕ) {field crc : List ℕ}
      → marshal_crc cbor sums t [] body ≡ ok (field, crc)
      → unmarshal_crc cbor sums (not (t == 0)) t body (field ++ rest) ≡ ok (crc, rest)
  unfolding marshal_crc unmarshal_crc
  crc_back t body rest {field} {crc} h = elim (Bool-cases (t == 0)) [
    | inl e ↦ let (same, same') = pair_inj (rw e at h) in rw (e, sym same, sym same') refl
    | inr e ↦
        let (v, calculated, h') = >>=-eq-ok (calculate_crc cbor sums body t) _ (rw e at h) in
        let (same, same') = pair_inj h' in
        let small : length v < u64_mod = omega (arith, calculate_crc-length body t v calculated) in
        let back = laws.bytes_back v rest small in
        subst (λ (f, c). unmarshal_crc cbor sums (not (t == 0)) t body (f ++ rest) ≡ ok (c, rest))
          (λ i. (same i, same' i)) (rw (e, calculated, back, bytes_eq_refl v) refl)
  ]

  -- A reader that starts on what was written for one field goes on with the next.
  pub read_then :
      {A B : Type 0} (read : List ℕ → Result (A × List ℕ)) (k : A × List ℕ → Result B)
      {y : Result B} (w tail rest : List ℕ) (a : A)
      → ((r : List ℕ) → read (w ++ r) ≡ ok (a, r))
      → k (a, tail ++ rest) ≡ y
      → (read ((w ++ tail) ++ rest) >>= k) ≡ y
  read_then read k w tail rest a back h = rw (append_assoc w tail rest, back (tail ++ rest)) h

  pub marshal_crc-total :
      (t : ℕ) (old body : List ℕ)
      → t ≤ 2
      → (t ≡ 0 → old ≡ [])
      → (field : List ℕ) × (crc : List ℕ) × (marshal_crc cbor sums t old body ≡ ok (field, crc))
        × (marshal_crc cbor sums t [] body ≡ ok (field, crc))
  unfolding marshal_crc calculate_crc empty_crc
  marshal_crc-total zero old body h n = ([], [], rw (n refl) refl, refl)
  marshal_crc-total (suc zero) old body h n = (_, _, refl, refl)
  marshal_crc-total (suc (suc zero)) old body h n = (_, _, refl, refl)
  marshal_crc-total (suc (suc (suc t))) old body h n = absurd (omega arith)
