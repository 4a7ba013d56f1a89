-- ===== src/Tcpcl/Messages/Reading.antt =====
-- The Unmarshal methods of pkg/cla/tcpclv4/internal/msgs, and ReadMessage. `make` panics on a
-- length above `alloc_limit`, the largest allocation of the Go runtime.
use dtn.Prelude.{
  ℕ, List, [], Option, none, some, ok, err, panic, ◌>>=◌, ◌>>◌, guard, leb, ltb, ◌==◌,
  if◌then◌else◌, bytes_eq,
}
use dtn.Tcpcl.Words.{
  Result, Reader, read_bytes, read_uint, wrong_magic, unknown_message, invalid_reason, wrong_header,
}
use dtn.Tcpcl.Messages.{
  Message, session_init, session_termination, data_transmission, data_acknowledgement,
  transfer_refusal, keepalive, message_rejection, contact_header, xfer_segment, xfer_ack,
  xfer_refuse, keepalive_type, sess_term, msg_reject, sess_init, contact_header_head,
  valid_termination, valid_refusal, valid_rejection,
}

-- The message header that each Unmarshal, but that of the contact header, starts with.
unfoldable pub read_header : ℕ → List ℕ → Result (List ℕ)
read_header expected bytes = do
  (header, rest) ← read_uint 1 bytes
  guard (header == expected) (wrong_header header expected)
  ok rest

unfoldable pub unmarshal_session_termination : Reader Message
unmarshal_session_termination bytes = do
  r ← read_header sess_term bytes
  (flags, r) ← read_uint 1 r
  (reason, r) ← read_uint 1 r
  guard (valid_termination reason) (invalid_reason reason)
  ok (session_termination record { termination_flags = flags; termination_reason = reason }, r)

unfoldable pub unmarshal_acknowledgement : Reader Message
unmarshal_acknowledgement bytes = do
  r ← read_header xfer_ack bytes
  (flags, r) ← read_uint 1 r
  (tid, r) ← read_uint 8 r
  (len, r) ← read_uint 8 r
  ok (data_acknowledgement record { ack_flags = flags; ack_id = tid; ack_len = len }, r)

unfoldable pub unmarshal_refusal : Reader Message
unmarshal_refusal bytes = do
  r ← read_header xfer_refuse bytes
  (reason, r) ← read_uint 1 r
  (tid, r) ← read_uint 8 r
  guard (valid_refusal reason) (invalid_reason reason)
  ok (transfer_refusal record { refusal_reason = reason; refused_id = tid }, r)

unfoldable pub unmarshal_keepalive : Reader Message
unmarshal_keepalive bytes = do r ← read_header keepalive_type bytes; ok (keepalive, r)

unfoldable pub unmarshal_rejection : Reader Message
unmarshal_rejection bytes = do
  r ← read_header msg_reject bytes
  (reason, r) ← read_uint 1 r
  (header, r) ← read_uint 1 r
  guard (valid_rejection reason) (invalid_reason reason)
  ok (message_rejection record { rejection_reason = reason; rejected_header = header }, r)

unfoldable pub unmarshal_contact_header : Reader Message
unmarshal_contact_header bytes = do
  (head, r) ← read_bytes 5 bytes
  (flags, r) ← read_uint 1 r
  guard (bytes_eq head contact_header_head) wrong_magic
  ok (contact_header flags, r)

module _ (alloc_limit : ℕ) where
  -- `make([]byte, n)`, filled by `io.ReadFull`.
  unfoldable pub read_buffer : ℕ → Reader (List ℕ)
  read_buffer n bytes = if leb n alloc_limit then read_bytes n bytes else panic

  -- The length of extension items that are skipped.
  unfoldable pub skip_extensions : List ℕ → Result (List ℕ)
  skip_extensions bytes = do
    (len, r) ← read_uint 4 bytes
    (items, r) ← if ltb 0 len then read_buffer len r else ok ([], r)
    ok r

  unfoldable pub unmarshal_session_init : Reader Message
  unmarshal_session_init bytes = do
    r ← read_header sess_init bytes
    (interval, r) ← read_uint 2 r
    (segment, r) ← read_uint 8 r
    (transfer, r) ← read_uint 8 r
    (len, r) ← read_uint 2 r
    (node, r) ← read_buffer len r
    r ← skip_extensions r
    ok (
      session_init record {
        keepalive_interval = interval;
        segment_mru = segment;
        transfer_mru = transfer;
        node_id = node;
      },
      r,
    )

  unfoldable pub unmarshal_segment : Reader Message
  unmarshal_segment bytes = do
    r ← read_header xfer_segment bytes
    (segment_flags, r) ← read_uint 1 r
    (tid, r) ← read_uint 8 r
    r ← skip_extensions r
    (len, r) ← read_uint 8 r
    (payload, r) ← if ltb 0 len then read_buffer len r else ok ([], r)
    ok (
      data_transmission record { flags = segment_flags; transfer_id = tid; data_bytes = payload },
      r,
    )

  -- NewMessage: the Unmarshal of the type that is registered for a code.
  unfoldable pub new_message : ℕ → Option (Reader Message)
  new_message code =
      if code == sess_init
      then some unmarshal_session_init
      else if code == sess_term
      then some unmarshal_session_termination
      else if code == xfer_segment
      then some unmarshal_segment
      else if code == xfer_ack
      then some unmarshal_acknowledgement
      else if code == xfer_refuse
      then some unmarshal_refusal
      else if code == keepalive_type
      then some unmarshal_keepalive
      else if code == msg_reject
      then some unmarshal_rejection
      else if code == 0x64
      then some unmarshal_contact_header
      else none

  unfoldable pub unmarshal_as : ℕ → Option (Reader Message) → Reader Message
  unmarshal_as code (some unmarshal) bytes = unmarshal bytes
  unmarshal_as code none bytes = err (unknown_message code)

  -- ReadMessage: the octet of the type is read again by the Unmarshal.
  unfoldable pub read_message : Reader Message
  unfolding unmarshal_as
  read_message bytes = do (code, r) ← read_uint 1 bytes; unmarshal_as code (new_message code) bytes
