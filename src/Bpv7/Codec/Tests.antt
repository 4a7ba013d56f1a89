-- ===== src/Bpv7/Codec/Tests.antt =====
-- A model of the CBOR library in which every head is a tag and a number, and the round trips on it.
use dtn.Prelude.{
  ℕ, ◌+◌, ◌≡◌, refl, ap₂, List, [], ◌∷◌, ◌++◌, some, ok, err, ◌>>=◌, arith, length, take, drop,
  take-append, drop-append, ◌==◌, if◌then◌else◌,
}
use dtn.Bpv7.Errors.{Result, break_flag, major_type}
use dtn.Bpv7.Endpoint.{EndpointType, ipn_endpoint}
use dtn.Bpv7.Block.{CanonicalBlock, payload, hop_count, type_code, block_type_code}
use dtn.Bpv7.Flags.{has}
use dtn.Bpv7.Primary.{PrimaryBlock, has_fragmentation}
use dtn.Bpv7.Bundle.{Bundle, check_valid}
use dtn.Bpv7.Codec.{Cbor, CborLaws, Checksums, uint_major, text_string_major}
use dtn.Bpv7.Codec.Endpoint.{IsParsed}
use dtn.Bpv7.Codec.Primary.RoundTrip.{IsWritable}
use dtn.Bpv7.Codec.Canonical.{marshal_hop_count}
use dtn.Bpv7.Codec.Canonical.RoundTrip.{IsWritableBlock}
use dtn.Bpv7.Codec.Bundle.{marshal_bundle, unmarshal_bundle}
use dtn.Bpv7.Codec.Bundle.RoundTrip.{IsReadBack, unmarshal-marshal_bundle}

abbrev read_tag : ℕ → List ℕ → Result (ℕ × List ℕ)
read_tag tag [] = err (major_type tag)
read_tag tag (t ∷ []) = if t == 4 then err break_flag else err (major_type t)
read_tag tag (t ∷ n ∷ r) =
    if t == 4 then err break_flag else if t == tag then ok (n, r) else err (major_type t)

abbrev read_head : List ℕ → Result (ℕ × ℕ × List ℕ)
read_head (t ∷ n ∷ r) =
    if t == 0
    then ok (uint_major, n, r)
    else if t == 3
    then ok (text_string_major, n, r)
    else err (major_type t)
read_head _ = err (major_type 0)

abbrev split_at : ℕ → List ℕ → Result (List ℕ × List ℕ)
split_at n r = ok (take n r, drop n r)

abbrev expect : ℕ → List ℕ → Result (List ℕ)
expect b [] = err (major_type b)
expect b (x ∷ r) = if x == b then ok r else err (major_type x)

abbrev pub tagged : Cbor
tagged = record {
  write_uint = λ n. 0 ∷ n ∷ [];
  read_uint = read_tag 0;
  write_array_length = λ n. 1 ∷ n ∷ [];
  read_array_length = read_tag 1;
  write_byte_string = λ bs. 2 ∷ length bs ∷ bs;
  read_byte_string = λ r. read_tag 2 r >>= λ (n, r'). split_at n r';
  write_text_string = λ bs. 3 ∷ length bs ∷ bs;
  read_majors = read_head;
  read_raw_bytes = split_at;
  read_expect = expect;
  indefinite_array = 5;
  break_code = 4;
}

split_at-append : (bs rest : List ℕ) → split_at (length bs) (bs ++ rest) ≡ ok (bs, rest)
split_at-append bs rest = ap₂ (λ x y. ok (x, y)) (take-append bs rest) (drop-append bs rest)

expect_lem : (b : ℕ) (rest : List ℕ) → expect b (b ∷ rest) ≡ ok rest
expect_lem b rest = ground arith

break_lem : (rest : List ℕ) → read_tag 1 (4 ∷ rest) ≡ err break_flag
break_lem [] = refl
break_lem (n ∷ rest) = refl

pub tagged-CborLaws : CborLaws tagged
tagged-CborLaws = record {
  uint_back = λ n rest h. refl;
  array_back = λ n rest h. refl;
  bytes_back = λ bs rest h. split_at-append bs rest;
  uint_majors = λ n rest h. refl;
  text_majors = λ bs rest h. refl;
  raw_back = split_at-append;
  expect_back = expect_lem;
  break_back = break_lem;
}

abbrev pub sums : Checksums
sums = record { crc16 = λ bs. length bs; crc32 = λ bs. 65536 + length bs }

abbrev pub service : EndpointType
service = ipn_endpoint (record { node = 23; service = 42 })

-- A fragment's primary block.
abbrev pub fragment_primary : PrimaryBlock
fragment_primary = record {
  version = 7;
  bundle_control_flags = 1;
  crc_type = 2;
  destination = some service;
  source_node = some service;
  report_to = some service;
  creation_timestamp = record { dtn_time = 1000; sequence_number = 3 };
  lifetime = 5000;
  fragment_offset = 2;
  total_data_length = 4;
  crc = [];
}

abbrev pub service-IsParsed : IsParsed service
service-IsParsed = (omega arith, omega arith, omega arith, omega arith)

fragment_primary-IsWritable : IsWritable fragment_primary service service service
unfolding has_fragmentation has
fragment_primary-IsWritable = record {
  version = refl;
  flags = omega arith;
  crc_type = omega arith;
  destination = (refl, service-IsParsed);
  source = (refl, service-IsParsed);
  report_to = (refl, service-IsParsed);
  time = omega arith;
  sequence = omega arith;
  lifetime = omega arith;
  offset = omega arith;
  total = omega arith;
  unfragmented = λ e. absurd cc;
  no_crc = λ e. refl;
}

abbrev hops : CanonicalBlock
hops = record {
  block_number = 2;
  block_control_flags = 0;
  crc_type = 1;
  crc = [];
  value = hop_count (record { limit = 5; count = 0 });
}

abbrev contents : CanonicalBlock
contents = record {
  block_number = 1;
  block_control_flags = 0;
  crc_type = 0;
  crc = [];
  value = payload (1 ∷ 2 ∷ 3 ∷ []);
}

hops-IsWritableBlock : IsWritableBlock tagged sums hops
unfolding type_code block_type_code marshal_hop_count
hops-IsWritableBlock = record {
  code = omega arith;
  number = omega arith;
  flags = omega arith;
  crc_type = omega arith;
  no_crc = λ e. refl;
  value = (omega arith, omega arith, omega arith);
}

contents-IsWritableBlock : IsWritableBlock tagged sums contents
unfolding type_code block_type_code
contents-IsWritableBlock = record {
  code = omega arith;
  number = omega arith;
  flags = omega arith;
  crc_type = omega arith;
  no_crc = λ e. refl;
  value = omega arith;
}

abbrev fragment_bundle : Bundle
fragment_bundle = record {
  primary_block = fragment_primary;
  canonical_blocks = hops ∷ contents ∷ [];
}

unmarshal-marshal_bundle_example :
    (bytes : List ℕ) × (c : Bundle) × (marshal_bundle tagged sums fragment_bundle ≡ ok (bytes, c))
    × IsReadBack fragment_bundle c
    × (unmarshal_bundle tagged sums 3 0 bytes ≡ some (check_valid 0 c >>= λ errs. ok (c, errs)))
unmarshal-marshal_bundle_example =
    unmarshal-marshal_bundle tagged sums tagged-CborLaws 3 0 fragment_bundle service service service
      fragment_primary-IsWritable (hops-IsWritableBlock, (contents-IsWritableBlock, tt))
      (omega arith)
