-- ===== src/Tcpcl/Transfer.antt =====
-- utils/transfer_out.go, transfer_in.go and transfer_manager.go: a bundle is sent in segments.
-- `decode` stands for UnmarshalCbor of a bundle, with no result for an error.
use mathlib.Core.Option
use dtn.Prelude.{
  ℕ, zero, suc, ◌+◌, List, [], ◌∷◌, ◌++◌, Option, none, some, Bool, true, false, not, Run, ok, err,
  panic, ◌>>◌, guard, length, take, drop, leb, ◌==◌, bit_and, bit_or, if◌then◌else◌,
}
use dtn.Tcpcl.Messages.{
  Segment, Acknowledgement, Message, data_transmission, data_acknowledgement, transfer_refusal,
}

pub data Error : Type 0 where
  already_ended no_bundle unexpected_message : Error
  id_mismatch : ℕ → ℕ → Error
  unknown_acknowledgement unknown_refusal : ℕ → Error

abbrev pub segment_end : ℕ
segment_end = 0x01

abbrev pub segment_start : ℕ
segment_start = 0x02

-- The stream holds the bytes that are still to be sent.
pub record OutgoingTransfer : Type 0 where
  pub out_id : ℕ
  pub start_flag : Bool
  pub data_stream : List ℕ

pub record IncomingTransfer : Type 0 where
  pub in_id : ℕ
  pub end_flag : Bool
  pub buf : List ℕ

unfoldable pub segment_flags : Bool → Bool → ℕ
segment_flags start end =
    bit_or (if start then segment_start else 0) (if end then segment_end else 0)

-- `io.ReadFull` on the stream: the bytes, the rest, and whether they were fewer than asked for. No
-- result: the stream was at its end.
unfoldable pub read_full : ℕ → List ℕ → Option (List ℕ × List ℕ × Bool)
read_full mtu bytes =
    if leb mtu (length bytes)
    then some (take mtu bytes, drop mtu bytes, false)
    else elim bytes [ [] ↦ none | b ∷ bs ↦ some (b ∷ bs, [], true) ]

-- OutgoingTransfer.NextSegment; its only error is the end of the stream.
unfoldable pub next_segment : ℕ → OutgoingTransfer → Option (OutgoingTransfer × Segment)
next_segment mtu t = elim (read_full mtu t.data_stream) [
  | none ↦ none
  | some (bytes, rest, last) ↦ some (
    record t { start_flag = false; data_stream = rest },
    record { flags = segment_flags t.start_flag last; transfer_id = t.out_id; data_bytes = bytes },
  )
]

-- The sending goroutine of TransferManager.Send: what it sends, and the length that it reports. No
-- result: out of fuel.
unfoldable pub send_segments : ℕ → ℕ → ℕ → OutgoingTransfer → Option (List Segment × ℕ)
send_segments zero mtu l t = none
send_segments (suc fuel) mtu l t = elim (next_segment mtu t) [
  | none ↦ some ([], l)
  | some (t', s) ↦
      Option.map (λ (ss, n). (s ∷ ss, n)) (send_segments fuel mtu (l + length s.data_bytes) t')
]

unfoldable pub new_incoming_transfer : ℕ → IncomingTransfer
new_incoming_transfer tid = record { in_id = tid; end_flag = false; buf = [] }

unfoldable pub ends : ℕ → Bool
ends flags = not (bit_and flags segment_end == 0)

-- IncomingTransfer.NextSegment
unfoldable pub receive_segment :
    IncomingTransfer → Segment → Run Error (IncomingTransfer × Acknowledgement)
receive_segment t s = do
  guard (not t.end_flag) already_ended
  guard (t.in_id == s.transfer_id) (id_mismatch s.transfer_id t.in_id)
  let bytes = t.buf ++ s.data_bytes
  ok (
    record t { end_flag = if ends s.flags then true else t.end_flag; buf = bytes },
    record { ack_flags = s.flags; ack_id = s.transfer_id; ack_len = length bytes },
  )

-- The open transfers, the acknowledgements and bundles that were passed on, the transfers that wait
-- for feedback, with the feedback that they got, and the error that has ended the loop.
pub record TransferManager (B : Type 0) : Type 0 where
  pub in_transfers : ℕ → Option IncomingTransfer
  pub msg_out : List Acknowledgement
  pub bundles : List B
  pub out_feedback : ℕ → Bool
  pub feedback : List (ℕ × Message)
  pub failed : Option Error

abbrev pub store {ℓ} : {A : Type ℓ} → (ℕ → A) → ℕ → A → ℕ → A
store m k v j = if j == k then v else m j

module _ {B : Type 0} (decode : List ℕ → Option B) where
  -- LoadOrStore
  unfoldable pub load_transfer : TransferManager B → ℕ → IncomingTransfer
  load_transfer m tid = elim (m.in_transfers tid) [ some t ↦ t | none ↦ new_incoming_transfer tid ]

  unfoldable pub finish_transfer : TransferManager B → IncomingTransfer → TransferManager B
  finish_transfer m t = elim (decode t.buf) [
    | none ↦ record m { failed = some no_bundle }
    | some b ↦ record m {
      in_transfers = store m.in_transfers t.in_id none;
      bundles = m.bundles ++ b ∷ [];
    }
  ]

  accept_segment :
      TransferManager B
      → Segment
      → Run Error (IncomingTransfer × Acknowledgement)
      → TransferManager B
  accept_segment m s (ok (t, ack)) =
      let m' : TransferManager B = record m {
        in_transfers = store m.in_transfers s.transfer_id (some t);
        msg_out = m.msg_out ++ ack ∷ [];
      } in
      if t.end_flag then finish_transfer m' t else m'
  accept_segment m s (err e) = record m {
    in_transfers = store m.in_transfers s.transfer_id (some (load_transfer m s.transfer_id));
    failed = some e;
  }
  accept_segment m s panic = m

  unfoldable pub handle_segment : TransferManager B → Segment → TransferManager B
  unfolding accept_segment
  handle_segment m s = accept_segment m s (receive_segment (load_transfer m s.transfer_id) s)

  give_feedback : TransferManager B → ℕ → Message → Error → TransferManager B
  give_feedback m tid msg e =
      if m.out_feedback tid
      then record m { feedback = m.feedback ++ (tid, msg) ∷ [] }
      else record m { failed = some e }

  handle_open : TransferManager B → Message → TransferManager B
  handle_open m (data_transmission s) = handle_segment m s
  handle_open m (data_acknowledgement a) =
      give_feedback m a.ack_id (data_acknowledgement a) (unknown_acknowledgement a.ack_id)
  handle_open m (transfer_refusal tr) =
      give_feedback m tr.refused_id (transfer_refusal tr) (unknown_refusal tr.refused_id)
  handle_open m _ = record m { failed = some unexpected_message }

  abbrev pub unless_failed :
      Option Error → TransferManager B → TransferManager B → TransferManager B
  unless_failed none m next = next
  unless_failed (some e) m next = m

  -- One round of TransferManager.handle, which has returned once there was an error.
  unfoldable pub handle : TransferManager B → Message → TransferManager B
  unfolding handle_open give_feedback
  handle m msg = unless_failed m.failed m (handle_open m msg)

  unfoldable pub handle_messages : TransferManager B → List Message → TransferManager B
  handle_messages m [] = m
  handle_messages m (msg ∷ msgs) = handle_messages (handle m msg) msgs
