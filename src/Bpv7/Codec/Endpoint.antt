-- ===== src/Bpv7/Codec/Endpoint.antt =====
-- The CBOR representations of endpoint identifiers and creation timestamps, in endpoint.go,
-- endpoint_dtn.go, endpoint_ipn.go and time.go.
use dtn.Prelude.{
  ℕ, ◌<◌, ◌≡◌, refl, sym, ap, subst, List, [], ◌∷◌, ◌++◌, append_assoc, Option, none, some, Bool,
  true, false, ◌⊎◌, inl, inr, ok, err, panic, ◌>>=◌, ◌>>◌, guard, arith, length, ◌==◌,
  if◌then◌else◌,
}
use dtn.Prelude.Int.{u64_mod}
use dtn.Bpv7.Errors.{
  Error, Result, array_length, unknown_scheme, major_type, ssp_mismatch, text_dtn_none,
}
use dtn.Bpv7.Endpoint.{
  DtnEndpoint, IpnEndpoint, EndpointType, dtn_endpoint, ipn_endpoint, EndpointId, parse_dtn_ssp,
  dtn_ssp, check_endpoint,
}
use dtn.Bpv7.Time.{CreationTimestamp}
use dtn.Bpv7.Codec.{Cbor, CborLaws, uint_major, text_string_major}

-- The first error of a check, or go on.
abbrev pub no_error : List Error → Result (Unit {0})
no_error [] = ok tt
no_error (e ∷ es) = err e

module _ (cbor : Cbor) where
  open cbor use {
    write_uint, read_uint, write_array_length, read_array_length, write_text_string, read_majors,
    read_raw_bytes,
  }

  -- The scheme number and the scheme specific part.
  unfoldable pub marshal_endpoint_type : EndpointType → List ℕ
  marshal_endpoint_type (dtn_endpoint e) =
      write_uint 1 ++ (if e.is_dtn_none then write_uint 0 else write_text_string (dtn_ssp e))
  marshal_endpoint_type (ipn_endpoint e) =
      write_uint 2 ++ (write_array_length 2 ++ (write_uint e.node ++ write_uint e.service))

  abbrev pub endpoint_bytes : EndpointType → List ℕ
  endpoint_bytes e = write_array_length 2 ++ marshal_endpoint_type e

  marshal_valid : EndpointId → Result (List ℕ)
  marshal_valid none = panic
  marshal_valid (some e) = ok (endpoint_bytes e)

  -- EndpointID.MarshalCbor
  unfoldable pub marshal_endpoint : EndpointId → Result (List ℕ)
  unfolding marshal_valid
  marshal_endpoint e = do no_error (check_endpoint e); marshal_valid e

  dtn_of_parts : Option (List ℕ × List ℕ × Bool) → List ℕ → Result (EndpointType × List ℕ)
  dtn_of_parts none rest = err ssp_mismatch
  dtn_of_parts (some (n, d, true)) rest = err text_dtn_none
  dtn_of_parts (some (n, d, false)) rest =
      ok (dtn_endpoint (record { node_name = n; demux = d; is_dtn_none = false }), rest)

  -- A text of the given length.
  unmarshal_text : ℕ → List ℕ → Result (EndpointType × List ℕ)
  unfolding dtn_of_parts
  unmarshal_text n r = do (ssp, r') ← read_raw_bytes n r; dtn_of_parts (parse_dtn_ssp ssp) r'

  -- DtnEndpoint.UnmarshalCbor
  unfoldable pub unmarshal_dtn : List ℕ → Result (EndpointType × List ℕ)
  unfolding unmarshal_text
  unmarshal_dtn r = do
    (m, n, r') ← read_majors r
    let none_endpoint = dtn_endpoint (record { node_name = []; demux = []; is_dtn_none = true })
    let other = if m == text_string_major then unmarshal_text n r' else err (major_type m)
    if m == uint_major then ok (none_endpoint, r') else other

  -- IpnEndpoint.UnmarshalCbor
  unfoldable pub unmarshal_ipn : List ℕ → Result (EndpointType × List ℕ)
  unmarshal_ipn r = do
    (n, r') ← read_array_length r
    guard (n == 2) (array_length n)
    (node, r'') ← read_uint r'
    (service, r''') ← read_uint r''
    ok (ipn_endpoint (record { node = node; service = service }), r''')

  unfoldable pub unmarshal_scheme : ℕ → List ℕ → Result (EndpointType × List ℕ)
  unfolding unmarshal_dtn unmarshal_ipn
  unmarshal_scheme scheme r =
      if scheme == 1
      then unmarshal_dtn r
      else if scheme == 2
      then unmarshal_ipn r
      else err (unknown_scheme scheme)

  -- EndpointID.UnmarshalCbor
  unfoldable pub unmarshal_endpoint : List ℕ → Result (EndpointId × List ℕ)
  unfolding unmarshal_scheme
  unmarshal_endpoint r = do
    (l, r') ← read_array_length r
    guard (l == 2) (array_length l)
    (scheme, r'') ← read_uint r'
    (e, r''') ← unmarshal_scheme scheme r''
    ok (some e, r''')

  unfoldable pub marshal_timestamp : CreationTimestamp → List ℕ
  marshal_timestamp ct =
      write_array_length 2 ++ (write_uint ct.dtn_time ++ write_uint ct.sequence_number)

  unfoldable pub unmarshal_timestamp : List ℕ → Result (CreationTimestamp × List ℕ)
  unmarshal_timestamp r = do
    (l, r') ← read_array_length r
    guard (l == 2) (array_length l)
    (time, r'') ← read_uint r'
    (sequence, r''') ← read_uint r''
    ok (record { dtn_time = time; sequence_number = sequence }, r''')

-- The endpoints that NewEndpointID and UnmarshalCbor make: words in range, and parts that are those
-- of the text.
abbrev pub IsParsed : EndpointType → Type 0
IsParsed (dtn_endpoint e) =
    ((e.is_dtn_none ≡ true) × (e.node_name ≡ []) × (e.demux ≡ []))
    ⊎ ((e.is_dtn_none ≡ false)
        × (parse_dtn_ssp (dtn_ssp e) ≡ some (e.node_name, e.demux, false))
        × (length (dtn_ssp e) < u64_mod))
IsParsed (ipn_endpoint e) =
    (0 < e.node) × (0 < e.service) × (e.node < u64_mod) × (e.service < u64_mod)

module _ (cbor : Cbor) (laws : CborLaws cbor) where
  scheme_back :
      (scheme : ℕ) (bytes rest : List ℕ) (e : EndpointType)
      → scheme < u64_mod
      → unmarshal_scheme cbor scheme (bytes ++ rest) ≡ ok (e, rest)
      → unmarshal_endpoint cbor
          ((cbor.write_array_length 2 ++ (cbor.write_uint scheme ++ bytes)) ++ rest)
        ≡ ok (some e, rest)
  unfolding unmarshal_endpoint
  scheme_back scheme bytes rest e small back =
      rw
        (
          append_assoc (cbor.write_array_length 2) (cbor.write_uint scheme ++ bytes) rest,
          append_assoc (cbor.write_uint scheme) bytes rest,
          laws.array_back 2 (cbor.write_uint scheme ++ (bytes ++ rest)) (omega arith),
          laws.uint_back scheme (bytes ++ rest) small,
          back,
        )
        refl

  none_back :
      (e : DtnEndpoint) (rest : List ℕ)
      → e.is_dtn_none ≡ true
      → e.node_name ≡ []
      → e.demux ≡ []
      → unmarshal_dtn cbor (cbor.write_uint 0 ++ rest) ≡ ok (dtn_endpoint e, rest)
  unfolding unmarshal_dtn
  none_back e rest is_none name demux = rw (laws.uint_majors 0 rest (omega arith)) (
      let same : e ≡ record { node_name = []; demux = []; is_dtn_none = true } =
        λ i. record { node_name = name i; demux = demux i; is_dtn_none = is_none i } in
      ap (λ d. ok (dtn_endpoint d, rest)) (sym same))

  text_back :
      (e : DtnEndpoint) (rest : List ℕ)
      → e.is_dtn_none ≡ false
      → parse_dtn_ssp (dtn_ssp e) ≡ some (e.node_name, e.demux, false)
      → length (dtn_ssp e) < u64_mod
      → unmarshal_dtn cbor (cbor.write_text_string (dtn_ssp e) ++ rest) ≡ ok (dtn_endpoint e, rest)
  unfolding unmarshal_dtn unmarshal_text dtn_of_parts
  text_back e rest is_some parsed small =
      rw (laws.text_majors (dtn_ssp e) rest small, laws.raw_back (dtn_ssp e) rest, parsed)
        (ap
          (λ b. ok (
            dtn_endpoint (record { node_name = e.node_name; demux = e.demux; is_dtn_none = b }),
            rest,
          ))
          (sym is_some))

  ipn_back :
      (e : IpnEndpoint) (rest : List ℕ)
      → e.node < u64_mod
      → e.service < u64_mod
      → unmarshal_ipn cbor (
          (cbor.write_array_length 2 ++ (cbor.write_uint e.node ++ cbor.write_uint e.service))
          ++ rest)
        ≡ ok (ipn_endpoint e, rest)
  unfolding unmarshal_ipn
  ipn_back e rest n s =
      rw
        (
          append_assoc (cbor.write_array_length 2)
              (cbor.write_uint e.node ++ cbor.write_uint e.service) rest,
          append_assoc (cbor.write_uint e.node) (cbor.write_uint e.service) rest,
          laws.array_back 2 (cbor.write_uint e.node ++ (cbor.write_uint e.service ++ rest))
              (omega arith),
          laws.uint_back e.node (cbor.write_uint e.service ++ rest) n,
          laws.uint_back e.service rest s,
        )
        refl

  pub marshal_endpoint-IsParsed :
      (e : EndpointType) → IsParsed e → marshal_endpoint cbor (some e) ≡ ok (endpoint_bytes cbor e)
  unfolding marshal_endpoint marshal_valid marshal_endpoint_type check_endpoint
  marshal_endpoint-IsParsed (dtn_endpoint e) (inl (is_none, n, d)) = rw is_none refl
  marshal_endpoint-IsParsed (dtn_endpoint e) (inr (is_some, parsed, small)) =
      rw (parsed, is_some) refl
  marshal_endpoint-IsParsed (ipn_endpoint e) (n, s, n', s') = ground arith

  pub endpoint_back :
      (e : EndpointType) (rest : List ℕ)
      → IsParsed e
      → unmarshal_endpoint cbor (endpoint_bytes cbor e ++ rest) ≡ ok (some e, rest)
  unfolding marshal_endpoint_type unmarshal_scheme
  endpoint_back (dtn_endpoint e) rest (inl (is_none, n, d)) = scheme_back 1 _ rest _ (omega arith) (
      subst
        (λ b.
          unmarshal_dtn cbor
            ((if b then cbor.write_uint 0 else cbor.write_text_string (dtn_ssp e)) ++ rest)
          ≡ ok (dtn_endpoint e, rest))
        (sym is_none) (none_back e rest is_none n d))
  endpoint_back (dtn_endpoint e) rest (inr (is_some, parsed, small)) =
      scheme_back 1 _ rest _ (omega arith) (
        subst
          (λ b.
            unmarshal_dtn cbor
              ((if b then cbor.write_uint 0 else cbor.write_text_string (dtn_ssp e)) ++ rest)
            ≡ ok (dtn_endpoint e, rest))
          (sym is_some) (text_back e rest is_some parsed small))
  endpoint_back (ipn_endpoint e) rest (n, s, n', s') =
      scheme_back 2 _ rest _ (omega arith) (ipn_back e rest n' s')

  -- Every endpoint that the parser makes is read back from what is written for it, and what follows
  -- is left, where the CBOR library reads back what it writes.
  pub unmarshal-marshal_endpoint :
      (e : EndpointType) (rest : List ℕ)
      → IsParsed e
      → (marshal_endpoint cbor (some e) >>= λ bytes. unmarshal_endpoint cbor (bytes ++ rest))
        ≡ ok (some e, rest)
  unmarshal-marshal_endpoint e rest h = rw (marshal_endpoint-IsParsed e h) (endpoint_back e rest h)

  pub timestamp_back :
      (ct : CreationTimestamp) (rest : List ℕ)
      → ct.dtn_time < u64_mod
      → ct.sequence_number < u64_mod
      → unmarshal_timestamp cbor (marshal_timestamp cbor ct ++ rest) ≡ ok (ct, rest)
  unfolding unmarshal_timestamp marshal_timestamp
  timestamp_back ct rest t s =
      rw
        (
          append_assoc (cbor.write_array_length 2)
              (cbor.write_uint ct.dtn_time ++ cbor.write_uint ct.sequence_number) rest,
          append_assoc (cbor.write_uint ct.dtn_time) (cbor.write_uint ct.sequence_number) rest,
          laws.array_back 2
              (cbor.write_uint ct.dtn_time ++ (cbor.write_uint ct.sequence_number ++ rest))
              (omega arith),
          laws.uint_back ct.dtn_time (cbor.write_uint ct.sequence_number ++ rest) t,
          laws.uint_back ct.sequence_number rest s,
        )
        refl
