-- ===== src/Tcpcl/Stages/Established/Exchange.antt =====
-- pkg/cla/tcpclv4/internal/stages/sess_established.go: what the loop passes on in both directions.
use dtn.Prelude.{
  ℕ, subst, ◌/◌, ◌+◌, ◌≡◌, refl, sym, ap, ◌∙◌, List, [], ◌∷◌, ◌++◌, append-nil, append_assoc, none,
  some, Option-cases, inl, inr, ltb, leb, if-elim,
}
use dtn.Tcpcl.Messages.{
  Message, session_init, session_termination, keepalive, data_transmission, data_acknowledgement,
  transfer_refusal, message_rejection, contact_header,
}
use dtn.Tcpcl.Stages.{StageError, send}
use dtn.Tcpcl.Stages.Established.{
  Event, close, tick, message_in, message_out, Session, keepalive_duration, message_out_at, fail,
  reschedule, handle_keepalive, session_term, hand_on, handle_msg_in, handle_event, unless_failed,
  run,
}

abbrev pub messages_in : Session → List Message
messages_in se = se.state.exchange_msg_in

abbrev pub messages_out : Session → List Message
messages_out se = se.state.msg_out

-- What the transfers are to get of a message, and the stage's own answer to it.
abbrev pub for_transfers : Message → List Message
for_transfers (session_init _) = []
for_transfers (session_termination _) = []
for_transfers keepalive = []
for_transfers m = m ∷ []

abbrev pub answer : Message → List Message
answer (session_termination _) = session_term 0x01 ∷ []
answer m = []

abbrev pub handed_by : Event → List Message
handed_by (message_in m) = for_transfers m
handed_by e = []

abbrev pub sent_by : Event → List Message
sent_by close = session_term 0 ∷ []
sent_by tick = []
sent_by (message_in m) = answer m
sent_by (message_out m) = m ∷ []

-- The same for the events that a loop takes.
abbrev pub all_by : (Event → List Message) → List (ℕ × Event) → List Message
all_by by [] = []
all_by by ((now, e) ∷ es) = by e ++ all_by by es

-- A list of messages with more KEEPALIVEs in it.
pub data WithKeepalives : List Message → List Message → Type 0 where
  same : WithKeepalives [] []
  keep :
      {m : Message} {ms ns : List Message} → WithKeepalives ms ns → WithKeepalives (m ∷ ms) (m ∷ ns)
  more : {ms ns : List Message} → WithKeepalives ms ns → WithKeepalives ms (keepalive ∷ ns)

WithKeepalives-refl : (ms : List Message) → WithKeepalives ms ms
WithKeepalives-refl [] = same
WithKeepalives-refl (m ∷ ms) = keep (WithKeepalives-refl ms)

WithKeepalives-append :
    {ms ns ms' ns' : List Message}
    → WithKeepalives ms ns
    → WithKeepalives ms' ns'
    → WithKeepalives (ms ++ ms') (ns ++ ns')
WithKeepalives-append same w' = w'
WithKeepalives-append (keep w) w' = keep (WithKeepalives-append w w')
WithKeepalives-append (more w) w' = more (WithKeepalives-append w w')

-- What a session has passed on, compared with an earlier one.
pub record Passes (handed sent : List Message) (se se' : Session) : Type 0 where
  pub to_transfers : messages_in se' ≡ messages_in se ++ handed
  pub wire : List Message
  pub to_peer : messages_out se' ≡ messages_out se ++ wire
  pub keepalives : WithKeepalives sent wire

Passes-refl : (se : Session) → Passes [] [] se se
Passes-refl se = record {
  to_transfers = sym (append-nil (messages_in se));
  wire = [];
  to_peer = sym (append-nil (messages_out se));
  keepalives = same;
}

Passes-trans :
    (h s h' s' : List Message) {a b c : Session}
    → Passes h s a b
    → Passes h' s' b c
    → Passes (h ++ h') (s ++ s') a c
Passes-trans h s h' s' {a} p q = record {
  to_transfers =
      q.to_transfers ∙ ap (λ x. x ++ h') p.to_transfers ∙ append_assoc (messages_in a) h h';
  wire = p.wire ++ q.wire;
  to_peer =
      q.to_peer ∙ ap (λ x. x ++ q.wire) p.to_peer ∙ append_assoc (messages_out a) p.wire q.wire;
  keepalives = WithKeepalives-append p.keepalives q.keepalives;
}

-- One message is sent, none is handed on; or the reverse.
sends :
    (m : Message) (se se' : Session)
    → messages_in se' ≡ messages_in se
    → messages_out se' ≡ messages_out se ++ m ∷ []
    → Passes [] (m ∷ []) se se'
sends m se se' hi ho = record {
  to_transfers = hi ∙ sym (append-nil (messages_in se));
  wire = m ∷ [];
  to_peer = ho;
  keepalives = keep same;
}

silent :
    (se se' : Session)
    → messages_in se' ≡ messages_in se
    → messages_out se' ≡ messages_out se
    → Passes [] [] se se'
silent se se' hi ho = record {
  to_transfers = hi ∙ sym (append-nil (messages_in se));
  wire = [];
  to_peer = ho ∙ sym (append-nil (messages_out se));
  keepalives = same;
}

hands :
    (m : Message) (se se' : Session)
    → messages_in se' ≡ messages_in se ++ m ∷ []
    → messages_out se' ≡ messages_out se
    → Passes (m ∷ []) [] se se'
hands m se se' hi ho = record {
  to_transfers = hi;
  wire = [];
  to_peer = ho ∙ sym (append-nil (messages_out se));
  keepalives = same;
}

message-Passes :
    (now : ℕ) (m : Message) (se : Session)
    → Passes (for_transfers m) (answer m) se (handle_msg_in now m se)
unfolding handle_msg_in fail hand_on message_out_at send
message-Passes now (session_init _) se = silent se _ refl refl
message-Passes now (session_termination _) se = sends _ se _ refl refl
message-Passes now keepalive se = silent se _ refl refl
message-Passes now (data_transmission _) se = hands _ se _ refl refl
message-Passes now (data_acknowledgement _) se = hands _ se _ refl refl
message-Passes now (transfer_refusal _) se = hands _ se _ refl refl
message-Passes now (message_rejection _) se = hands _ se _ refl refl
message-Passes now (contact_header _) se = hands _ se _ refl refl

keepalive-Passes : (now : ℕ) (se : Session) → Passes [] [] se (handle_keepalive now se)
unfolding handle_keepalive fail reschedule message_out_at send
keepalive-Passes now se =
    if-elim (Passes [] [] se) (ltb (se.last_receive + keepalive_duration se) now) _ _
      (λ _. silent se _ refl refl)
      (λ _.
        if-elim (Passes [] [] se)
          (leb (se.last_send + keepalive_duration se) (now + keepalive_duration se / 8)) _ _
          (λ _. record {
            to_transfers = sym (append-nil (messages_in se));
            wire = keepalive ∷ [];
            to_peer = refl;
            keepalives = more same;
          })
          (λ _. silent se _ refl refl))

event-Passes :
    (now : ℕ) (e : Event) (se : Session)
    → Passes (handed_by e) (sent_by e) se (handle_event now e se)
unfolding handle_event fail message_out_at send
event-Passes now close se = sends _ se _ refl refl
event-Passes now tick se = keepalive-Passes now se
event-Passes now (message_in m) se = message-Passes now m se
event-Passes now (message_out m) se = sends m se _ refl refl

-- The loop takes the events up to some point, and all of them unless it has ended with an error.
-- It has passed on what those events say, and more KEEPALIVEs.
pub record Exchanges (es : List (ℕ × Event)) (se se' : Session) : Type 0 where
  pub taken : List (ℕ × Event)
  pub left : List (ℕ × Event)
  pub split : es ≡ taken ++ left
  pub passes : Passes (all_by handed_by taken) (all_by sent_by taken) se se'
  pub complete : se'.state.stage_error ≡ none → left ≡ []

pub run-failed :
    (es : List (ℕ × Event)) (se : Session) {e : StageError}
    → se.state.stage_error ≡ some e
    → run es se ≡ se
unfolding run unless_failed
run-failed [] se h = refl
run-failed ((now, e) ∷ es) se h = ap (λ o. unless_failed o se (run es (handle_event now e se))) h

pub run-running :
    (now : ℕ) (e : Event) (es : List (ℕ × Event)) (se : Session)
    → se.state.stage_error ≡ none
    → run ((now, e) ∷ es) se ≡ run es (handle_event now e se)
unfolding run unless_failed
run-running now e es se h = ap (λ o. unless_failed o se (run es (handle_event now e se))) h

-- An event before those that a loop takes.
Exchanges-cons :
    (now : ℕ) (e : Event) (es : List (ℕ × Event)) (se se' : Session)
    → Exchanges es (handle_event now e se) se'
    → Exchanges ((now, e) ∷ es) se se'
Exchanges-cons now e es se se' x = record {
  taken = (now, e) ∷ x.taken;
  left = x.left;
  split = ap (◌∷◌ (now, e)) x.split;
  passes =
      Passes-trans (handed_by e) (sent_by e) (all_by handed_by x.taken) (all_by sent_by x.taken)
        (event-Passes now e se) x.passes;
  complete = x.complete;
}

Exchanges-failed :
    (es : List (ℕ × Event)) (se : Session) {e : StageError}
    → se.state.stage_error ≡ some e
    → Exchanges es se se
Exchanges-failed es se h = record {
  taken = [];
  left = es;
  split = refl;
  passes = Passes-refl se;
  complete = λ running. let clash = sym running ∙ h in cc;
}

-- While the stage runs, every message for the transfers is handed on to them and every message to
-- the peer is sent, in order, up to the event with which the loop ends; between the messages to
-- the peer there are only KEEPALIVEs, and its answer to a SESS_TERM or to its closing.
pub run-Exchanges :
    (es : List (ℕ × Event)) (se : Session)
    → se.state.stage_error ≡ none
    → Exchanges es se (run es se)
unfolding run
run-Exchanges [] se running = record {
  taken = [];
  left = [];
  split = refl;
  passes = Passes-refl se;
  complete = λ _. refl;
}
run-Exchanges ((now, e) ∷ es) se running =
    let next = handle_event now e se in
    subst (Exchanges ((now, e) ∷ es) se) (sym (run-running now e es se running)) (
      Exchanges-cons now e es se (run es next) (elim (Option-cases next.state.stage_error) [
        | inl h ↦ run-Exchanges es next h
        | inr (_, h) ↦
            subst (Exchanges es next) (sym (run-failed es next h)) (Exchanges-failed es next h)
      ]))
