-- ===== src/Tcpcl/Messages.antt =====
-- pkg/cla/tcpclv4/internal/msgs: the messages of TCPCLv4 and their byte form. A writer of the
-- standard library that returns no error is taken.
pub mod Reading
pub mod RoundTrip
pub mod Accepted
mod Tests
use dtn.Prelude.{
  ℕ, ◌+◌, ◌%◌, ◌^◌, ◌<◌, ◌≤◌, ◌≡◌, List, [], ◌∷◌, ◌++◌, Bool, true, false, length, ltb, leb, ◌&&◌,
}
use dtn.Tcpcl.Words.{put_uint}

-- DataTransmissionMessage and DataAcknowledgementMessage
pub record Segment : Type 0 where
  pub flags : ℕ
  pub transfer_id : ℕ
  pub data_bytes : List ℕ

pub record Acknowledgement : Type 0 where
  pub ack_flags : ℕ
  pub ack_id : ℕ
  pub ack_len : ℕ

-- TransferRefusalMessage
pub record TransferRefusal : Type 0 where
  pub refusal_reason : ℕ
  pub refused_id : ℕ

-- SessionInitMessage; the node ID as the octets of the string.
pub record SessionInit : Type 0 where
  pub keepalive_interval : ℕ
  pub segment_mru : ℕ
  pub transfer_mru : ℕ
  pub node_id : List ℕ

-- SessionTerminationMessage
pub record SessionTermination : Type 0 where
  pub termination_flags : ℕ
  pub termination_reason : ℕ

-- MessageRejectionMessage
pub record MessageRejection : Type 0 where
  pub rejection_reason : ℕ
  pub rejected_header : ℕ

pub data Message : Type 0 where
  session_init : SessionInit → Message
  session_termination : SessionTermination → Message
  data_transmission : Segment → Message
  data_acknowledgement : Acknowledgement → Message
  transfer_refusal : TransferRefusal → Message
  keepalive : Message
  message_rejection : MessageRejection → Message
  contact_header : ℕ → Message

abbrev pub xfer_segment : ℕ
xfer_segment = 0x01

abbrev pub xfer_ack : ℕ
xfer_ack = 0x02

abbrev pub xfer_refuse : ℕ
xfer_refuse = 0x03

abbrev pub keepalive_type : ℕ
keepalive_type = 0x04

abbrev pub sess_term : ℕ
sess_term = 0x05

abbrev pub msg_reject : ℕ
msg_reject = 0x06

abbrev pub sess_init : ℕ
sess_init = 0x07

abbrev pub contact_header_head : List ℕ
contact_header_head = 0x64 ∷ 0x74 ∷ 0x6E ∷ 0x21 ∷ 0x04 ∷ []

-- SessionTerminationCode.IsValid, TransferRefusalCode.IsValid and MessageRejectionReason.IsValid
abbrev pub valid_termination : ℕ → Bool
valid_termination reason = leb reason 0x05

abbrev pub valid_refusal : ℕ → Bool
valid_refusal reason = leb reason 0x06

abbrev pub valid_rejection : ℕ → Bool
valid_rejection reason = leb 0x01 reason && leb reason 0x03

-- The loop over the fields of a message, which writes one after the other.
abbrev pub write_fields : List (List ℕ) → List ℕ
write_fields [] = []
write_fields (field ∷ fields) = field ++ write_fields fields

marshal_session_init : SessionInit → List ℕ
marshal_session_init si = write_fields (
    put_uint 1 sess_init
    ∷ put_uint 2 si.keepalive_interval
    ∷ put_uint 8 si.segment_mru
    ∷ put_uint 8 si.transfer_mru
    ∷ put_uint 2 (length si.node_id % 2 ^ 16)
    ∷ si.node_id
    ∷ put_uint 4 0
    ∷ [])

marshal_segment : Segment → List ℕ
marshal_segment s = write_fields (
    put_uint 1 xfer_segment
    ∷ put_uint 1 s.flags
    ∷ put_uint 8 s.transfer_id
    ∷ put_uint 4 0
    ∷ put_uint 8 (length s.data_bytes % 2 ^ 64)
    ∷ s.data_bytes
    ∷ [])

marshal_acknowledgement : Acknowledgement → List ℕ
marshal_acknowledgement a =
    write_fields (
      put_uint 1 xfer_ack
      ∷ put_uint 1 a.ack_flags
      ∷ put_uint 8 a.ack_id
      ∷ put_uint 8 a.ack_len
      ∷ [])

marshal_termination : SessionTermination → List ℕ
marshal_termination st =
    write_fields (
      put_uint 1 sess_term
      ∷ put_uint 1 st.termination_flags
      ∷ put_uint 1 st.termination_reason
      ∷ [])

marshal_refusal : TransferRefusal → List ℕ
marshal_refusal tr =
    write_fields
      (put_uint 1 xfer_refuse ∷ put_uint 1 tr.refusal_reason ∷ put_uint 8 tr.refused_id ∷ [])

marshal_keepalive : List ℕ
marshal_keepalive = write_fields (put_uint 1 keepalive_type ∷ [])

marshal_rejection : MessageRejection → List ℕ
marshal_rejection mr =
    write_fields
      (put_uint 1 msg_reject ∷ put_uint 1 mr.rejection_reason ∷ put_uint 1 mr.rejected_header ∷ [])

marshal_contact_header : ℕ → List ℕ
marshal_contact_header flags = write_fields (contact_header_head ∷ put_uint 1 flags ∷ [])

-- The Marshal methods.
unfoldable pub marshal : Message → List ℕ
unfolding marshal_session_init marshal_segment marshal_acknowledgement marshal_termination
    marshal_refusal marshal_keepalive marshal_rejection marshal_contact_header
marshal (session_init si) = marshal_session_init si
marshal (session_termination st) = marshal_termination st
marshal (data_transmission s) = marshal_segment s
marshal (data_acknowledgement a) = marshal_acknowledgement a
marshal (transfer_refusal tr) = marshal_refusal tr
marshal keepalive = marshal_keepalive
marshal (message_rejection mr) = marshal_rejection mr
marshal (contact_header flags) = marshal_contact_header flags

-- A message whose fields fit into the Go types and into the octets that carry them, whose reason
-- is valid, and whose variable part can be allocated.
unfoldable pub IsEncodable : ℕ → Message → Type 0
IsEncodable limit (session_init si) =
    (si.keepalive_interval < 2 ^ 16)
    × (si.segment_mru < 2 ^ 64)
    × (si.transfer_mru < 2 ^ 64)
    × (length si.node_id < 2 ^ 16)
    × (length si.node_id ≤ limit)
IsEncodable limit (session_termination st) =
    (st.termination_flags < 2 ^ 8) × (valid_termination st.termination_reason ≡ true)
IsEncodable limit (data_transmission s) =
    (s.flags < 2 ^ 8)
    × (s.transfer_id < 2 ^ 64)
    × (length s.data_bytes < 2 ^ 64)
    × (length s.data_bytes ≤ limit)
IsEncodable limit (data_acknowledgement a) =
    (a.ack_flags < 2 ^ 8) × (a.ack_id < 2 ^ 64) × (a.ack_len < 2 ^ 64)
IsEncodable limit (transfer_refusal tr) =
    (valid_refusal tr.refusal_reason ≡ true) × (tr.refused_id < 2 ^ 64)
IsEncodable limit keepalive = Unit
IsEncodable limit (message_rejection mr) =
    (valid_rejection mr.rejection_reason ≡ true) × (mr.rejected_header < 2 ^ 8)
IsEncodable limit (contact_header flags) = flags < 2 ^ 8
