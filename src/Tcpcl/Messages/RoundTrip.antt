-- ===== src/Tcpcl/Messages/RoundTrip.antt =====
-- pkg/cla/tcpclv4/internal/msgs: what Marshal writes is read again by ReadMessage.
use dtn.Prelude.{
  ℕ, ◌%◌, ◌^◌, ◌<◌, ◌≤◌, ◌≡◌, refl, List, [], ◌∷◌, ◌++◌, true, false, panic, some, ok, ◌>>=◌,
  length, leb, ◌==◌, bytes_eq_refl, ltb, if◌then◌else◌, arith, append_assoc,
}
use dtn.Tcpcl.Words.{
  Result, Reader, put_uint, read_bytes, read_uint, read_bytes_back, read_uint_back,
}
use dtn.Tcpcl.Messages.{
  Segment, Acknowledgement, TransferRefusal, SessionInit, SessionTermination, MessageRejection,
  Message, session_init, session_termination, data_transmission, data_acknowledgement,
  transfer_refusal, keepalive, message_rejection, contact_header, contact_header_head, xfer_segment,
  write_fields, valid_termination, valid_refusal, valid_rejection, marshal, IsEncodable,
}
use dtn.Tcpcl.Messages.Reading.{
  read_header, unmarshal_session_termination, unmarshal_acknowledgement, unmarshal_refusal,
  unmarshal_keepalive, unmarshal_rejection, unmarshal_contact_header, read_buffer, skip_extensions,
  unmarshal_session_init, unmarshal_segment, new_message, read_message,
}

-- A reader that starts on what was written for one field goes on with the next.
field_back :
    {A B : Type 0} (read : Reader A) (k : A × List ℕ → Result B) {y : Result B}
    (w tail rest : List ℕ) (a : A)
    → ((r : List ℕ) → read (w ++ r) ≡ ok (a, r))
    → k (a, tail ++ rest) ≡ y
    → (read ((w ++ tail) ++ rest) >>= k) ≡ y
field_back read k w tail rest a back h = rw (append_assoc w tail rest, back (tail ++ rest)) h

word_back :
    {B : Type 0} (w n : ℕ) (k : ℕ × List ℕ → Result B) {y : Result B} (tail rest : List ℕ)
    → n < 256 ^ w
    → k (n, tail ++ rest) ≡ y
    → (read_uint w ((put_uint w n ++ tail) ++ rest) >>= k) ≡ y
word_back w n k tail rest h =
    field_back (read_uint w) k (put_uint w n) tail rest n (λ r. read_uint_back w n r h)

==_refl : (n : ℕ) → (n == n) ≡ true
==_refl n = ground arith

header_back :
    {B : Type 0} (c : ℕ) (k : List ℕ → Result B) {y : Result B} (tail rest : List ℕ)
    → c < 256
    → k (tail ++ rest) ≡ y
    → (read_header c ((put_uint 1 c ++ tail) ++ rest) >>= k) ≡ y
unfolding read_header
header_back c k tail rest small h =
    rw (append_assoc (put_uint 1 c) tail rest, read_uint_back 1 c (tail ++ rest) small, ==_refl c) h

-- The octets of an XFER_SEGMENT up to its data, of which it announces a length.
pub announce : ℕ → ℕ → ℕ → List ℕ
announce flags tid len = write_fields (
    put_uint 1 xfer_segment
    ∷ put_uint 1 flags
    ∷ put_uint 8 tid
    ∷ put_uint 4 0
    ∷ put_uint 8 len
    ∷ [])

module _ (rest : List ℕ) where
  acknowledgement_back :
      (a : Acknowledgement)
      → a.ack_flags < 2 ^ 8
      → a.ack_id < 2 ^ 64
      → a.ack_len < 2 ^ 64
      → unmarshal_acknowledgement (marshal (data_acknowledgement a) ++ rest)
        ≡ ok (data_acknowledgement a, rest)
  unfolding unmarshal_acknowledgement marshal
  acknowledgement_back a hf hi hl = header_back 2 _ _ rest (omega arith) (
      word_back 1 a.ack_flags _ _ rest hf
        (word_back 8 a.ack_id _ _ rest hi (word_back 8 a.ack_len _ _ rest hl refl)))

  termination_back :
      (st : SessionTermination)
      → st.termination_flags < 2 ^ 8
      → valid_termination st.termination_reason ≡ true
      → unmarshal_session_termination (marshal (session_termination st) ++ rest)
        ≡ ok (session_termination st, rest)
  unfolding unmarshal_session_termination marshal
  termination_back st hf hr = header_back 5 _ _ rest (omega arith) (
      word_back 1 st.termination_flags _ _ rest hf
        (word_back 1 st.termination_reason _ _ rest (ground arith) (rw hr refl)))

  refusal_back :
      (tr : TransferRefusal)
      → valid_refusal tr.refusal_reason ≡ true
      → tr.refused_id < 2 ^ 64
      → unmarshal_refusal (marshal (transfer_refusal tr) ++ rest) ≡ ok (transfer_refusal tr, rest)
  unfolding unmarshal_refusal marshal
  refusal_back tr hr hi = header_back 3 _ _ rest (omega arith) (
      word_back 1 tr.refusal_reason _ _ rest (ground arith)
        (word_back 8 tr.refused_id _ _ rest hi (rw hr refl)))

  rejection_back :
      (mr : MessageRejection)
      → valid_rejection mr.rejection_reason ≡ true
      → mr.rejected_header < 2 ^ 8
      → unmarshal_rejection (marshal (message_rejection mr) ++ rest)
        ≡ ok (message_rejection mr, rest)
  unfolding unmarshal_rejection marshal
  rejection_back mr hr hh = header_back 6 _ _ rest (omega arith) (
      word_back 1 mr.rejection_reason _ _ rest (ground arith)
        (word_back 1 mr.rejected_header _ _ rest hh (rw hr refl)))

  keepalive_back : unmarshal_keepalive (marshal keepalive ++ rest) ≡ ok (keepalive, rest)
  unfolding unmarshal_keepalive marshal
  keepalive_back = header_back 4 _ _ rest (omega arith) refl

  contact_header_back :
      (flags : ℕ)
      → flags < 2 ^ 8
      → unmarshal_contact_header (marshal (contact_header flags) ++ rest)
        ≡ ok (contact_header flags, rest)
  unfolding unmarshal_contact_header marshal
  contact_header_back flags h =
      field_back (read_bytes 5) _ contact_header_head _ rest contact_header_head
        (read_bytes_back contact_header_head)
        (word_back 1 flags _ _ rest h (rw (bytes_eq_refl contact_header_head) refl))

  module _ (limit : ℕ) where
    extensions_back :
        {B : Type 0} (k : List ℕ → Result B) {y : Result B} (tail : List ℕ)
        → k (tail ++ rest) ≡ y
        → (skip_extensions limit ((put_uint 4 0 ++ tail) ++ rest) >>= k) ≡ y
    unfolding skip_extensions
    extensions_back k tail h =
        rw (append_assoc (put_uint 4 0) tail rest, read_uint_back 4 0 (tail ++ rest) (omega arith))
          h

    buffer_back :
        (bytes more : List ℕ)
        → length bytes ≤ limit
        → read_buffer limit (length bytes) (bytes ++ more) ≡ ok (bytes, more)
    unfolding read_buffer
    buffer_back bytes more h =
        let fits : leb (length bytes) limit ≡ true = ground arith in
        rw (fits, read_bytes_back bytes more) refl

    payload_back :
        (bytes more : List ℕ)
        → length bytes ≤ limit
        → (if ltb 0 (length bytes)
            then read_buffer limit (length bytes) (bytes ++ more)
            else ok ([], bytes ++ more))
          ≡ ok (bytes, more)
    payload_back [] more h = refl
    payload_back (b ∷ bs) more h =
        let some_bytes : ltb 0 (length (b ∷ bs)) ≡ true = ground arith in
        rw some_bytes (buffer_back (b ∷ bs) more h)

    session_init_back :
        (si : SessionInit)
        → IsEncodable limit (session_init si)
        → unmarshal_session_init limit (marshal (session_init si) ++ rest)
          ≡ ok (session_init si, rest)
    unfolding unmarshal_session_init marshal IsEncodable
    session_init_back si (hk, hs, ht, hn, hl) =
        let same : length si.node_id % 2 ^ 16 ≡ length si.node_id = omega arith in
        header_back 7 _ _ rest (omega arith) (
          word_back 2 si.keepalive_interval _ _ rest hk (
            word_back 8 si.segment_mru _ _ rest hs (
              word_back 8 si.transfer_mru _ _ rest ht (
                rw same (
                  word_back 2 (length si.node_id) _ _ rest hn (
                    field_back (read_buffer limit (length si.node_id)) _ si.node_id _ rest
                      si.node_id (λ r. buffer_back si.node_id r hl)
                      (extensions_back _ [] refl)))))))

    segment_back :
        (s : Segment)
        → IsEncodable limit (data_transmission s)
        → unmarshal_segment limit (marshal (data_transmission s) ++ rest)
          ≡ ok (data_transmission s, rest)
    unfolding unmarshal_segment marshal IsEncodable
    segment_back s (hf, hi, hn, hl) =
        let same : length s.data_bytes % 2 ^ 64 ≡ length s.data_bytes = omega arith in
        header_back 1 _ _ rest (omega arith) (
          word_back 1 s.flags _ _ rest hf (
            word_back 8 s.transfer_id _ _ rest hi (
              extensions_back _ _ (
                rw same (
                  word_back 8 (length s.data_bytes) _ _ rest hn (
                    rw (append_assoc s.data_bytes [] rest, payload_back s.data_bytes rest hl)
                      refl))))))

    code_back :
        (code : ℕ) (unmarshal : Reader Message) {y : Result (Message × List ℕ)} (tail : List ℕ)
        → code < 256
        → new_message limit code ≡ some unmarshal
        → unmarshal (put_uint 1 code ++ tail) ≡ y
        → read_message limit (put_uint 1 code ++ tail) ≡ y
    unfolding read_message
    code_back code unmarshal tail small known h = rw (read_uint_back 1 code tail small, known) h

    -- ReadMessage reads every message with valid fields back from what its Marshal wrote, whatever
    -- follows it, and leaves what follows.
    pub read_message-marshal :
        (m : Message) → IsEncodable limit m → read_message limit (marshal m ++ rest) ≡ ok (m, rest)
    unfolding marshal new_message IsEncodable put_uint
    read_message-marshal (session_init si) h =
        code_back 7 _ _ (omega arith) refl (session_init_back si h)
    read_message-marshal (session_termination st) (hf, hr) =
        code_back 5 _ _ (omega arith) refl (termination_back st hf hr)
    read_message-marshal (data_transmission s) h =
        code_back 1 _ _ (omega arith) refl (segment_back s h)
    read_message-marshal (data_acknowledgement a) (hf, hi, hl) =
        code_back 2 _ _ (omega arith) refl (acknowledgement_back a hf hi hl)
    read_message-marshal (transfer_refusal tr) (hr, hi) =
        code_back 3 _ _ (omega arith) refl (refusal_back tr hr hi)
    read_message-marshal keepalive h = code_back 4 _ _ (omega arith) refl keepalive_back
    read_message-marshal (message_rejection mr) (hr, hh) =
        code_back 6 _ _ (omega arith) refl (rejection_back mr hr hh)
    read_message-marshal (contact_header flags) h =
        code_back 0x64 _ _ (omega arith) refl (contact_header_back flags h)

    module _ (flags tid len : ℕ) (hf : flags < 2 ^ 8) (hi : tid < 2 ^ 64) (hn : len < 2 ^ 64) where
      segment-announce :
          limit < len → unmarshal_segment limit (announce flags tid len ++ rest) ≡ panic
      unfolding announce unmarshal_segment read_buffer
      segment-announce large =
          let many : ltb 0 len ≡ true = ground arith in
          let too_many : leb len limit ≡ false = ground arith in
          header_back 1 _ _ rest (omega arith) (
            word_back 1 flags _ _ rest hf (
              word_back 8 tid _ _ rest hi
                (extensions_back _ _ (word_back 8 len _ [] rest hn (rw (many, too_many) refl)))))

      -- ReadMessage panics on an XFER_SEGMENT, with fields in their ranges, that announces more
      -- data than can be allocated, whether the data follow or not.
      pub read_message-announce :
          limit < len → read_message limit (announce flags tid len ++ rest) ≡ panic
      unfolding announce new_message put_uint
      read_message-announce large = code_back 1 _ _ (omega arith) refl (segment-announce large)
