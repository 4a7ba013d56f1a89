-- ===== src/Bpv7/Codec.antt =====
-- The interface of the CBOR library github.com/dtn7/cboring and of the two checksum functions, which
-- the repository imports. Writers are the bytes that they write; readers return what is left.
pub mod Crc
pub mod Endpoint
pub mod Primary
pub mod Canonical
pub mod Bundle
pub mod Tests
use dtn.Prelude.{ℕ, ◌+◌, ◌^◌, ◌<◌, ◌≡◌, List, [], ◌∷◌, ◌++◌, Run, ok, err, length}
use dtn.Prelude.Int.{u64_mod}
use dtn.Bpv7.Errors.{Error, Result, break_flag}

pub record Cbor : Type 0 where
  pub write_uint : ℕ → List ℕ
  pub read_uint : List ℕ → Result (ℕ × List ℕ)
  pub write_array_length : ℕ → List ℕ
  pub read_array_length : List ℕ → Result (ℕ × List ℕ)
  pub write_byte_string : List ℕ → List ℕ
  pub read_byte_string : List ℕ → Result (List ℕ × List ℕ)
  pub write_text_string : List ℕ → List ℕ
  -- The major type, its number, and the rest.
  pub read_majors : List ℕ → Result (ℕ × ℕ × List ℕ)
  pub read_raw_bytes : ℕ → List ℕ → Result (List ℕ × List ℕ)
  -- A byte that has to be there.
  pub read_expect : ℕ → List ℕ → Result (List ℕ)
  pub indefinite_array : ℕ
  pub break_code : ℕ

-- The major types as the library names them.
abbrev pub uint_major : ℕ
uint_major = 0x00

abbrev pub text_string_major : ℕ
text_string_major = 0x60

-- What is written is read back, up to the range of a 64-bit word, whatever follows.
pub record CborLaws (cbor : Cbor) : Type 0 where
  pub uint_back :
      (n : ℕ) (rest : List ℕ)
      → n < u64_mod
      → cbor.read_uint (cbor.write_uint n ++ rest) ≡ ok (n, rest)
  pub array_back :
      (n : ℕ) (rest : List ℕ)
      → n < u64_mod
      → cbor.read_array_length (cbor.write_array_length n ++ rest) ≡ ok (n, rest)
  pub bytes_back :
      (bs rest : List ℕ)
      → length bs < u64_mod
      → cbor.read_byte_string (cbor.write_byte_string bs ++ rest) ≡ ok (bs, rest)
  pub uint_majors :
      (n : ℕ) (rest : List ℕ)
      → n < u64_mod
      → cbor.read_majors (cbor.write_uint n ++ rest) ≡ ok (uint_major, n, rest)
  pub text_majors :
      (bs rest : List ℕ)
      → length bs < u64_mod
      → cbor.read_majors (cbor.write_text_string bs ++ rest)
        ≡ ok (text_string_major, length bs, bs ++ rest)
  pub raw_back : (bs rest : List ℕ) → cbor.read_raw_bytes (length bs) (bs ++ rest) ≡ ok (bs, rest)
  pub expect_back : (b : ℕ) (rest : List ℕ) → cbor.read_expect b (b ∷ rest) ≡ ok rest
  pub break_back :
      (rest : List ℕ) → cbor.read_array_length (cbor.break_code ∷ rest) ≡ err break_flag

pub record Checksums : Type 0 where
  pub crc16 : List ℕ → ℕ
  pub crc32 : List ℕ → ℕ
