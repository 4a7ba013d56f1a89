-- ===== src/Tcpcl/Stages/Established/Ending.antt =====
-- pkg/cla/tcpclv4/internal/stages/sess_established.go: how a session is terminated.
use dtn.Prelude.{
  ℕ, subst, sym, ap, ◌+◌, ◌/◌, ◌≡◌, refl, ◌∙◌, List, [], ◌∷◌, ◌++◌, Option, none, some, inl, inr,
  Option-cases, if-elim, ltb, leb,
}
use dtn.Tcpcl.Messages.{Message, session_init, session_termination}
use dtn.Tcpcl.Stages.{StageError, stage_close, send}
use dtn.Tcpcl.Stages.Established.{
  Event, close, tick, message_in, message_out, Session, keepalive_duration, message_out_at, fail,
  reschedule, handle_keepalive, session_term, hand_on, handle_msg_in, handle_event, run,
}
use dtn.Tcpcl.Stages.Established.Exchange.{messages_out, run-failed, run-running}

-- The last message to the peer is a SESS_TERM of the stage.
pub EndsWithTerm : Session → Type 0
EndsWithTerm se =
    (flags : ℕ) × (ms : List Message) × (messages_out se ≡ ms ++ session_term flags ∷ [])

abbrev error_of : Session → Option StageError
error_of se = se.state.stage_error

ClosesWithTerm : Session → Type 0
ClosesWithTerm se = error_of se ≡ some stage_close → EndsWithTerm se

still_open : {o : Option StageError} {R : Type 0} → o ≡ none → o ≡ some stage_close → R
still_open running closed = let clash = sym running ∙ closed in cc

message-ClosesWithTerm :
    (now : ℕ) (m : Message) (se : Session)
    → error_of se ≡ none
    → ClosesWithTerm (handle_msg_in now m se)
unfolding handle_msg_in fail message_out_at hand_on send ClosesWithTerm EndsWithTerm
message-ClosesWithTerm now (session_init _) se running = λ closed. cc
message-ClosesWithTerm now (session_termination _) se running = λ _. (_, _, refl)
message-ClosesWithTerm now m se running = λ closed. still_open running closed

event-ClosesWithTerm :
    (now : ℕ) (e : Event) (se : Session)
    → error_of se ≡ none
    → ClosesWithTerm (handle_event now e se)
unfolding handle_event handle_keepalive fail reschedule message_out_at send ClosesWithTerm
    EndsWithTerm
event-ClosesWithTerm now close se running = λ _. (_, _, refl)
event-ClosesWithTerm now tick se running =
    if-elim ClosesWithTerm (ltb (se.last_receive + keepalive_duration se) now) _ _ (λ _ closed. cc)
      (λ _.
        if-elim ClosesWithTerm
          (leb (se.last_send + keepalive_duration se) (now + keepalive_duration se / 8)) _ _
          (λ _ closed. still_open running closed) (λ _ closed. still_open running closed))
event-ClosesWithTerm now (message_in m) se running = message-ClosesWithTerm now m se running
event-ClosesWithTerm now (message_out m) se running = λ closed. still_open running closed

-- When a running session has ended with StageClose, a SESS_TERM is the last message that it has
-- sent, whatever events come behind the end.
pub run-EndsWithTerm :
    (es : List (ℕ × Event)) (se : Session)
    → se.state.stage_error ≡ none
    → (run es se).state.stage_error ≡ some stage_close
    → EndsWithTerm (run es se)
unfolding run ClosesWithTerm
run-EndsWithTerm [] se running closed = still_open running closed
run-EndsWithTerm ((now, e) ∷ es) se running closed =
    let next = handle_event now e se in
    let step = run-running now e es se running in
    let closed' : error_of (run es next) ≡ some stage_close = ap error_of (sym step) ∙ closed in
    subst EndsWithTerm (sym step) (elim (Option-cases (error_of next)) [
      | inl h ↦ run-EndsWithTerm es next h closed'
      | inr (_, h) ↦
          let stops = run-failed es next h in
          subst EndsWithTerm (sym stops)
            (event-ClosesWithTerm now e se running (ap error_of (sym stops) ∙ closed'))
    ])
