-- ===== src/Tcpcl/Stages/Established.antt =====
-- pkg/cla/tcpclv4/internal/stages/sess_established.go: the stage that exchanges messages until the
-- session ends. Instants and durations are natural numbers of nanoseconds; each event has the
-- instant at which the loop takes it.
use dtn.Prelude.{
  ℕ, ◌+◌, ◌*◌, ◌-◌, ◌/◌, ◌^◌, List, [], ◌∷◌, ◌++◌, Option, none, some, Bool, true, false,
  if◌then◌else◌, ltb, leb, ◌==◌,
}
use dtn.Tcpcl.Messages.{
  Message, session_init, session_termination, keepalive, data_transmission, data_acknowledgement,
  transfer_refusal, message_rejection, contact_header,
}
use dtn.Tcpcl.Stages.{
  State, StageError, stage_close, stalled_session, unexpected_session_init, send,
}
pub mod Exchange
pub mod Keepalive
pub mod Ending
pub mod Regular

abbrev pub second : ℕ
second = 10 ^ 9

-- The cases of the select statement.
pub data Event : Type 0 where
  close : Event
  tick : Event
  message_in message_out : Message → Event

-- SessEstablishedStage; `next_tick` is the instant for which the ticker is scheduled.
pub record Session : Type 0 where
  pub state : State
  pub last_receive : ℕ
  pub last_send : ℕ
  pub next_tick : Option ℕ

unfoldable pub keepalive_duration : Session → ℕ
keepalive_duration se = se.state.session_keepalive * second

-- The start of Handle.
unfoldable pub establish : State → ℕ → Session
establish s now = record {
  state = s;
  last_receive = now;
  last_send = now;
  next_tick =
      if s.session_keepalive == 0 then none else some (now + s.session_keepalive * second / 2);
}

unfoldable pub message_out_at : ℕ → Message → Session → Session
message_out_at now m se = record se { state = send m se.state; last_send = now }

unfoldable pub fail : StageError → Session → Session
fail e se = record se { state = record se.state { stage_error = some e } }

unfoldable pub reschedule : ℕ → Session → Session
reschedule at_instant se = record se { next_tick = some at_instant }

-- handleKeepalive; the tick that is handled is no longer scheduled. The deltas of the source are
-- compared without a subtraction.
unfoldable pub handle_keepalive : ℕ → Session → Session
handle_keepalive now se =
    let duration = keepalive_duration se in
    let ticked : Session = record se { next_tick = none } in
    if ltb (se.last_receive + duration) now
    then fail stalled_session ticked
    else if leb (se.last_send + duration) (now + duration / 8)
    then reschedule (now + duration / 2) (message_out_at now keepalive ticked)
    else reschedule (now + (se.last_send + duration - now) / 2) ticked

abbrev pub session_term : ℕ → Message
session_term flags =
    session_termination record { termination_flags = flags; termination_reason = 0x00 }

unfoldable pub hand_on : Message → Session → Session
hand_on m se = record se {
  state = record se.state { exchange_msg_in = se.state.exchange_msg_in ++ m ∷ [] };
}

-- The cases of handleMsgIn, and the answer to a SESS_TERM.
handle_type : ℕ → Message → Session → Session
handle_type now (session_init _) se = fail unexpected_session_init se
handle_type now (session_termination _) se =
    fail stage_close (message_out_at now (session_term 0x01) se)
handle_type now keepalive se = se
handle_type now m se = hand_on m se

unfoldable pub handle_msg_in : ℕ → Message → Session → Session
unfolding handle_type
handle_msg_in now m se = handle_type now m (record se { last_receive = now })

-- One round of the loop.
unfoldable pub handle_event : ℕ → Event → Session → Session
handle_event now close se = fail stage_close (message_out_at now (session_term 0) se)
handle_event now tick se = handle_keepalive now se
handle_event now (message_in m) se = handle_msg_in now m se
handle_event now (message_out m) se = message_out_at now m se

unfoldable pub unless_failed : Option StageError → Session → Session → Session
unless_failed (some e) se next = se
unless_failed none se next = next

-- The loop of Handle on the events that it takes, until there is an error.
unfoldable pub run : List (ℕ × Event) → Session → Session
unfolding unless_failed
run [] se = se
run ((now, e) ∷ es) se = unless_failed se.state.stage_error se (run es (handle_event now e se))
