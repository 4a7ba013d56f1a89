-- ===== src/Bbc/Fragment.antt =====
-- transmission_fragment.go: the two header bytes and the payload of a fragment.
use dtn.Prelude.{
  ℕ, ◌+◌, ◌*◌, ◌/◌, ◌%◌, ◌<◌, ◌≡◌, refl, List, [], ◌∷◌, Bool, true, false, not, ◌&&◌, Run, ok, err,
  bit_and, bit_or, arith, ◌==◌,
}
use dtn.Prelude.Bits.{holds_below, holds_below_at}

pub data Error : Type 0 where
  too_short : ℕ → Error
  no_start_bit already_finished start_bit_set not_finished : Error
  id_mismatch sequence_mismatch : ℕ → ℕ → Error

pub record Fragment : Type 0 where
  pub transmission_id : ℕ
  pub identifier : ℕ
  pub payload : List ℕ

abbrev pub fragment_identifier_size : ℕ
fragment_identifier_size = 2

abbrev flag_bits : Bool → ℕ → ℕ
flag_bits true bits = bits
flag_bits false bits = 0

-- The second header byte; `<<` on a byte drops the bits that leave it.
unfoldable pub pack_identifier : ℕ → Bool → Bool → Bool → ℕ
pack_identifier sequence_no start end fail =
    bit_or
      (bit_or (bit_or (bit_and sequence_no 0x1f * 8 % 256) (flag_bits start 0x04))
        (flag_bits end 0x02))
      (flag_bits fail 0x01)

unfoldable pub new_fragment : ℕ → ℕ → Bool → Bool → Bool → List ℕ → Fragment
new_fragment tid sequence_no start end fail payload = record {
  transmission_id = tid;
  identifier = pack_identifier sequence_no start end fail;
  payload = payload;
}

unfoldable pub parse_fragment : List ℕ → Run Error Fragment
parse_fragment [] = err (too_short 0)
parse_fragment (a ∷ []) = err (too_short 1)
parse_fragment (a ∷ b ∷ rest) = ok (record { transmission_id = a; identifier = b; payload = rest })

unfoldable pub sequence_number : Fragment → ℕ
sequence_number f = bit_and (f.identifier / 8) 0x1f

unfoldable pub start_bit : Fragment → Bool
start_bit f = not (bit_and f.identifier 0x04 == 0)

unfoldable pub end_bit : Fragment → Bool
end_bit f = not (bit_and f.identifier 0x02 == 0)

unfoldable pub fail_bit : Fragment → Bool
fail_bit f = not (bit_and f.identifier 0x01 == 0)

unfoldable pub bytes : Fragment → List ℕ
bytes f = f.transmission_id ∷ f.identifier ∷ f.payload

unfoldable pub report_failure : Fragment → Fragment
report_failure f = new_fragment f.transmission_id (sequence_number f) false false true []

unfoldable pub next_transmission_id : ℕ → ℕ
next_transmission_id tid = (tid + 1) % 256

unfoldable pub next_sequence_number : ℕ → ℕ
next_sequence_number seq = (seq + 1) % 256 % 16

abbrev same_bool : Bool → Bool → Bool
same_bool true b = b
same_bool false b = not b

-- The four parts of an identifier.
parts_agree : ℕ → ℕ → Bool → Bool → Bool → Bool
parts_agree identifier q start end fail =
    (bit_and (identifier / 8) 0x1f == q % 32)
    && same_bool (not (bit_and identifier 0x04 == 0)) start
    && same_bool (not (bit_and identifier 0x02 == 0)) end
    && same_bool (not (bit_and identifier 0x01 == 0)) fail

unpacks : Bool → Bool → Bool → ℕ → Bool
unfolding parts_agree
unpacks start end fail q = parts_agree (pack_identifier q start end fail) q start end fail

unpack_table : (start end fail : Bool) → holds_below (unpacks start end fail) 256 ≡ true
unfolding unpacks holds_below pack_identifier
unpack_table true true true = refl
unpack_table true true false = refl
unpack_table true false true = refl
unpack_table true false false = refl
unpack_table false true true = refl
unpack_table false true false = refl
unpack_table false false true = refl
unpack_table false false false = refl

-- What a fragment made from a sequence number and three flags gives back. and three flags gives each of them back.
pub record Unpacks (f : Fragment) (q : ℕ) (start end fail : Bool) : Type 0 where
  pub sequence : sequence_number f ≡ q % 32
  pub starts : start_bit f ≡ start
  pub ends : end_bit f ≡ end
  pub fails : fail_bit f ≡ fail

parts_agree-Unpacks :
    (f : Fragment) (q : ℕ) (start end fail : Bool)
    → parts_agree f.identifier q start end fail ≡ true
    → Unpacks f q start end fail
unfolding parts_agree sequence_number start_bit end_bit fail_bit
parts_agree-Unpacks f q start end fail h = record {
  sequence = ground arith;
  starts = ground arith;
  ends = ground arith;
  fails = ground arith;
}

-- A fragment made from a byte as its sequence number and three flags gives back the five low bits
-- of the byte, and each of the flags.
pub new_fragment-Unpacks :
    (tid q : ℕ) (start end fail : Bool) (payload : List ℕ)
    → q < 256
    → Unpacks (new_fragment tid q start end fail payload) q start end fail
unfolding new_fragment unpacks
new_fragment-Unpacks tid q start end fail payload h =
    parts_agree-Unpacks _ q start end fail
      (holds_below_at (unpacks start end fail) 256 q h (unpack_table start end fail))
