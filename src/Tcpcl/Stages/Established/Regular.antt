-- ===== src/Tcpcl/Stages/Established/Regular.antt =====
-- pkg/cla/tcpclv4/internal/stages/sess_established.go: a peer whose loop takes its ticks on time
-- sends something in every keepalive interval.
use dtn.Prelude.{
  ℕ, subst, sym, ap, ◌+◌, ◌*◌, ◌/◌, ◌≤◌, ◌<◌, ◌≡◌, refl, ◌∙◌, List, [], ◌∷◌, Option, some, ◌⊎◌, inl,
  inr, Option-cases, arith, ltb, Bool-cases, ◌==◌, false,
}
use dtn.Tcpcl.Messages.{Message, session_init, session_termination, keepalive}
use dtn.Tcpcl.Stages.{State, StageError, send}
use dtn.Tcpcl.Stages.Established.{
  Event, close, tick, message_in, message_out, Session, second, keepalive_duration, establish,
  message_out_at, fail, hand_on, handle_msg_in, handle_event, run,
}
use dtn.Tcpcl.Stages.Established.Exchange.{run-failed, run-running}
use dtn.Tcpcl.Stages.Established.Keepalive.{deadline, stalls, ticks}

-- The next tick is due before the keepalive interval after the last message is over.
pub record IsScheduled (k : ℕ) (se : Session) : Type 0 where
  pub due : ℕ
  pub scheduled : se.next_tick ≡ some due
  pub in_time : due < se.last_send + k * second
  pub sent : se.last_send ≤ due
  pub same_keepalive : se.state.session_keepalive ≡ k

-- An event that the loop takes on time: a tick when it is due, anything else no later, and not
-- before the last message.
pub record IsDue (now : ℕ) (e : Event) (se : Session) : Type 0 where
  pub due_at : ℕ
  pub next : se.next_tick ≡ some due_at
  pub no_later : now ≤ due_at
  pub tick_on_time : e ≡ tick → now ≡ due_at
  pub not_before : se.last_send ≤ now

unfoldable pub Prompt : List (ℕ × Event) → Session → Type 0
Prompt [] se = Unit
Prompt ((now, e) ∷ es) se = IsDue now e se × Prompt es (handle_event now e se)

pub Stopped : Session → Type 0
Stopped se = (e : StageError) × (se.state.stage_error ≡ some e)

some_inj : {x y : ℕ} → ◌≡◌ {A = Option ℕ} (some x) (some y) → x ≡ y
some_inj h = cc

-- A message to the peer.
out-IsScheduled :
    (k now : ℕ) (m : Message) (se : Session)
    → 0 < k
    → IsScheduled k se
    → IsDue now (message_out m) se
    → IsScheduled k (message_out_at now m se)
unfolding message_out_at send
out-IsScheduled k now m se positive h d =
    let same = some_inj (sym d.next ∙ h.scheduled) in
    record {
      due = h.due;
      scheduled = h.scheduled;
      in_time = omega (arith, d.not_before, h.in_time);
      sent = omega (arith, d.no_later, same);
      same_keepalive = h.same_keepalive;
    }

-- Neither the tick nor the last message changes.
kept :
    (k : ℕ) (se se' : Session)
    → se'.next_tick ≡ se.next_tick
    → se'.last_send ≡ se.last_send
    → se'.state.session_keepalive ≡ se.state.session_keepalive
    → IsScheduled k se
    → IsScheduled k se'
kept k se se' hn hs hk h = record {
  due = h.due;
  scheduled = hn ∙ h.scheduled;
  in_time = omega (arith, hs, h.in_time);
  sent = omega (arith, hs, h.sent);
  same_keepalive = hk ∙ h.same_keepalive;
}

-- A received message.
in-IsScheduled :
    (k now : ℕ) (m : Message) (se : Session)
    → IsScheduled k se
    → Stopped (handle_msg_in now m se) ⊎ IsScheduled k (handle_msg_in now m se)
unfolding handle_msg_in hand_on fail message_out_at Stopped
in-IsScheduled k now (session_init _) se h = inl (_, refl)
in-IsScheduled k now (session_termination _) se h = inl (_, refl)
in-IsScheduled k now keepalive se h = inr (kept k se _ refl refl refl h)
in-IsScheduled k now m se h = inr (kept k se _ refl refl refl h)

tick-IsScheduled :
    (k now : ℕ) (se : Session)
    → 0 < k
    → IsScheduled k se
    → IsDue now tick se
    → Stopped (handle_event now tick se) ⊎ IsScheduled k (handle_event now tick se)
unfolding handle_event Stopped fail deadline keepalive_duration
tick-IsScheduled k now se positive h d = elim (Bool-cases (ltb (deadline se) now)) [
  | inl e ↦
      let stop = stalls now se (ground (arith, e)) in inl (_, ap (λ s. s.state.stage_error) stop)
  | inr e ↦
      let t = ticks now se (omega (arith, h.same_keepalive)) (ground (arith, e)) d.not_before in
      let kept : k * second ≡ se.state.session_keepalive * second =
        ap (λ x. x * second) (sym h.same_keepalive) in
      inr (record {
        due = t.due;
        scheduled = t.scheduled;
        in_time = omega (arith, t.before, kept);
        sent = t.sent;
        same_keepalive = t.same_keepalive ∙ h.same_keepalive;
      })
]

event-IsScheduled :
    (k now : ℕ) (e : Event) (se : Session)
    → 0 < k
    → IsScheduled k se
    → IsDue now e se
    → Stopped (handle_event now e se) ⊎ IsScheduled k (handle_event now e se)
unfolding handle_event fail Stopped
event-IsScheduled k now close se positive h d = inl (_, refl)
event-IsScheduled k now tick se positive h d = tick-IsScheduled k now se positive h d
event-IsScheduled k now (message_in m) se positive h d = in-IsScheduled k now m se h
event-IsScheduled k now (message_out m) se positive h d =
    inr (out-IsScheduled k now m se positive h d)

-- From any session that is scheduled.
later-IsScheduled :
    (k : ℕ) (es : List (ℕ × Event)) (se : Session)
    → 0 < k
    → IsScheduled k se
    → Prompt es se
    → Stopped (run es se) ⊎ IsScheduled k (run es se)
unfolding run Prompt Stopped
later-IsScheduled k [] se positive h d = inr h
later-IsScheduled k ((now, e) ∷ es) se positive h (d, ds) =
    elim (Option-cases se.state.stage_error) [
      | inr (x, failed) ↦
          let stops = run-failed ((now, e) ∷ es) se failed in
          inr (subst (IsScheduled k) (sym stops) h)
      | inl running ↦
          let next = handle_event now e se in
          subst (λ s. Stopped s ⊎ IsScheduled k s) (sym (run-running now e es se running))
            (elim (event-IsScheduled k now e se positive h d) [
              | inl (x, failed) ↦ inl (subst Stopped (sym (run-failed es next failed)) (x, failed))
              | inr h' ↦ later-IsScheduled k es next positive h' ds
            ])
    ]

establish-IsScheduled :
    (s : State) (now : ℕ)
    → 0 < s.session_keepalive
    → IsScheduled s.session_keepalive (establish s now)
unfolding establish
establish-IsScheduled s now positive =
    let d = s.session_keepalive * second in
    let on : (s.session_keepalive == 0) ≡ false = ground arith in
    record {
      due = now + d / 2;
      scheduled = rw on refl;
      in_time = omega arith;
      sent = omega arith;
      same_keepalive = refl;
    }

-- If the state that the stage starts with has a keepalive, and the loop takes all events on time: from the start
-- of the stage on, the session has stopped with an error, or its next tick is due before the keepalive
-- interval after its last message is over.
pub run-IsScheduled :
    (s : State) (now : ℕ) (es : List (ℕ × Event))
    → 0 < s.session_keepalive
    → Prompt es (establish s now)
    → Stopped (run es (establish s now))
      ⊎ IsScheduled s.session_keepalive (run es (establish s now))
run-IsScheduled s now es positive prompt =
    later-IsScheduled s.session_keepalive es (establish s now) positive
      (establish-IsScheduled s now positive) prompt
