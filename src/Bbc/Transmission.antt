-- ===== src/Bbc/Transmission.antt =====
-- transmission.go: incoming and outgoing transmissions. The compression of a bundle is left to the
-- connector; a transmission carries plain bytes.
use dtn.Prelude.{
  ℕ, List, [], ◌∷◌, ◌++◌, Bool, true, false, not, Run, ok, err, panic, ◌>>=◌, ◌>>◌, guard, length,
  take, drop, leb, ◌==◌, if◌then◌else◌,
}
use dtn.Prelude.Int.{ℤ, pos, negsuc, sub_ℕ}
use dtn.Bbc.Fragment.{
  Error, no_start_bit, already_finished, start_bit_set, id_mismatch, sequence_mismatch, Fragment,
  fragment_identifier_size, new_fragment, sequence_number, start_bit, end_bit, next_sequence_number,
}

pub record IncomingTransmission : Type 0 where
  pub in_id : ℕ
  pub in_payload : List ℕ
  pub in_finished : Bool
  pub prev_sequence_no : ℕ

unfoldable pub new_incoming : Fragment → Run Error IncomingTransmission
new_incoming f =
    if start_bit f
    then ok (record {
      in_id = f.transmission_id;
      in_payload = f.payload;
      in_finished = end_bit f;
      prev_sequence_no = sequence_number f;
    })
    else err no_start_bit

-- An error leaves the transmission as it was.
unfoldable pub read_fragment :
    IncomingTransmission → Fragment → Run Error (IncomingTransmission × Bool)
read_fragment t f = do
  guard (not t.in_finished) already_finished
  guard (f.transmission_id == t.in_id) (id_mismatch f.transmission_id t.in_id)
  guard (sequence_number f == next_sequence_number t.prev_sequence_no)
      (sequence_mismatch (next_sequence_number t.prev_sequence_no) (sequence_number f))
  guard (not (start_bit f)) start_bit_set
  ok (
    record t {
      in_payload = t.in_payload ++ f.payload;
      in_finished = end_bit f;
      prev_sequence_no = sequence_number f;
    },
    end_bit f,
  )

-- `mtu` is what is left of the modem's for the payload, and may be negative.
pub record OutgoingTransmission : Type 0 where
  pub out_id : ℕ
  pub out_payload : List ℕ
  pub out_finished : Bool
  pub mtu : ℤ
  pub start : Bool
  pub next_segment_no : ℕ

abbrev is_empty : List ℕ → Bool
is_empty [] = true
is_empty (x ∷ xs) = false

unfoldable pub new_plain_outgoing : ℕ → List ℕ → ℕ → OutgoingTransmission
new_plain_outgoing tid payload mtu = record {
  out_id = tid;
  out_payload = payload;
  out_finished = is_empty payload;
  mtu = sub_ℕ mtu fragment_identifier_size;
  start = true;
  next_segment_no = 0;
}

-- The next piece of the payload, what is left of it, and whether it was the last.
unfoldable pub next_payload : List ℕ → ℤ → Run Error (List ℕ × List ℕ × Bool)
next_payload bytes (pos m) =
    if leb (length bytes) m then ok (bytes, [], true) else ok (take m bytes, drop m bytes, false)
next_payload bytes (negsuc m) = panic

unfoldable pub write_fragment :
    OutgoingTransmission → Run Error (OutgoingTransmission × Fragment × Bool)
write_fragment t = do
  guard (not t.out_finished) already_finished
  (piece, rest, last) ← next_payload t.out_payload t.mtu
  let seq = next_sequence_number t.next_segment_no
  ok (
    record t { out_payload = rest; out_finished = last; start = false; next_segment_no = seq },
    new_fragment t.out_id seq t.start last false piece,
    last,
  )
