-- ===== src/Tcpcl/Stages/Established/Keepalive.antt =====
-- pkg/cla/tcpclv4/internal/stages/sess_established.go: when KEEPALIVEs are sent, and when a session
-- is found to be stalled.
use dtn.Prelude.{
  ℕ, zero, suc, subst, sym, ap, ap₂, ◌+◌, ◌*◌, ◌-◌, ◌/◌, ◌≤◌, ◌<◌, ◌≡◌, refl, ◌∙◌, Option, none,
  some, true, false, ltb, leb, ◌==◌, if-elim, Bool-cases, inl, inr, arith, ltb→lt,
}
use dtn.Tcpcl.Stages.{State, stalled_session, send}
use dtn.Tcpcl.Stages.Established.{
  tick, Session, second, keepalive_duration, establish, message_out_at, fail, reschedule,
  handle_keepalive, handle_event,
}

idle_round : (ℕ → Session → ℕ × Session) → Option ℕ → ℕ → Session → ℕ × Session
idle_round others none now se = (now, se)
idle_round others (some t) now se = others t (handle_event t tick se)

-- The rounds of a session that takes no message, each at the instant of its tick: the instant of
-- the last one, and the session.
pub idle : ℕ → ℕ → Session → ℕ × Session
idle zero now se = (now, se)
idle (suc n) now se = idle_round (idle n) se.next_tick now se

-- The instant from which a tick finds the session stalled.
unfoldable pub deadline : Session → ℕ
deadline se = se.last_receive + keepalive_duration se

pub stalls :
    (t : ℕ) (se : Session)
    → deadline se < t
    → handle_keepalive t se ≡ fail stalled_session (record se { next_tick = none })
unfolding handle_keepalive deadline
stalls t se h =
    let late : ltb (se.last_receive + keepalive_duration se) t ≡ true = ground arith in rw late refl

-- A tick that finds no stall leaves the next one scheduled, and what was received.
pub record Ticks (t : ℕ) (se se' : Session) : Type 0 where
  pub due : ℕ
  pub scheduled : se'.next_tick ≡ some due
  pub later : t + keepalive_duration se / 16 ≤ due
  pub soon : due ≤ t + keepalive_duration se / 2
  pub sent : se'.last_send ≤ due
  pub before : due < se'.last_send + keepalive_duration se
  pub same_receive : se'.last_receive ≡ se.last_receive
  pub same_keepalive : se'.state.session_keepalive ≡ se.state.session_keepalive

pub ticks :
    (t : ℕ) (se : Session)
    → 0 < se.state.session_keepalive
    → t ≤ deadline se
    → se.last_send ≤ t
    → Ticks t se (handle_keepalive t se)
unfolding handle_keepalive deadline keepalive_duration reschedule message_out_at send
ticks t se positive early h =
    let d = se.state.session_keepalive * second in
    let fine : ltb (se.last_receive + d) t ≡ false = ground arith in
    rw fine (
      if-elim (Ticks t se) (leb (se.last_send + d) (t + d / 8)) _ _
        (λ e. record {
          due = t + d / 2;
          scheduled = refl;
          later = omega arith;
          soon = omega arith;
          sent = omega arith;
          before = omega arith;
          same_receive = refl;
          same_keepalive = refl;
        })
        (λ e.
          let far : t + d / 8 < se.last_send + d = ground (arith, e) in
          record {
            due = t + (se.last_send + d - t) / 2;
            scheduled = refl;
            later = omega (arith, far);
            soon = omega (arith, far);
            sent = omega (arith, far);
            before = omega (arith, far);
            same_receive = refl;
            same_keepalive = refl;
          }))

-- Found stalled, at this instant or before it.
pub IsStalled : ℕ → ℕ × Session → Type 0
IsStalled limit (now, se) = (se.state.stage_error ≡ some stalled_session) × (now ≤ limit)

idle-scheduled :
    (n now t : ℕ) (se : Session)
    → se.next_tick ≡ some t
    → idle (suc n) now se ≡ idle n t (handle_event t tick se)
unfolding idle idle_round
idle-scheduled n now t se h = ap (λ o. idle_round (idle n) o now se) h

-- A session that has stopped has no tick.
idle-stopped : (n t : ℕ) (se : Session) → se.next_tick ≡ none → idle n t se ≡ (t, se)
unfolding idle idle_round
idle-stopped zero t se h = refl
idle-stopped (suc n) t se h = ap (λ o. idle_round (idle n) o t se) h

idle-late :
    (n now t limit : ℕ) (se : Session)
    → se.next_tick ≡ some t
    → deadline se < t
    → t ≤ limit
    → IsStalled limit (idle (suc n) now se)
unfolding IsStalled handle_event fail
idle-late n now t limit se scheduled late soon =
    let stopped : Session = fail stalled_session (record se { next_tick = none }) in
    let stops : idle (suc n) now se ≡ (t, stopped) =
      idle-scheduled n now t se scheduled
      ∙ ap (idle n t) (stalls t se late)
      ∙ idle-stopped n t stopped refl in
    subst (IsStalled limit) (sym stops) (refl, soon)

idle-IsStalled :
    (n now t limit : ℕ) (se : Session)
    → se.next_tick ≡ some t
    → 0 < se.state.session_keepalive
    → se.last_send ≤ t
    → deadline se < t + n * (keepalive_duration se / 16)
    → t ≤ limit
    → deadline se + keepalive_duration se / 2 ≤ limit
    → IsStalled limit (idle (suc n) now se)
unfolding handle_event deadline keepalive_duration
idle-IsStalled zero now t limit se scheduled positive sent enough soon bound =
    let nothing : 0 * (keepalive_duration se / 16) ≡ 0 = omega arith in
    idle-late zero now t limit se scheduled (omega (arith, nothing)) soon
idle-IsStalled (suc n) now t limit se scheduled positive sent enough soon bound =
    elim (Bool-cases (ltb (deadline se) t)) [
      | inl e ↦ idle-late (suc n) now t limit se scheduled (ltb→lt (deadline se) t e) soon
      | inr e ↦
          let early : t ≤ deadline se = ground (arith, e) in
          let q = keepalive_duration se / 16 in
          let more_rounds : suc n * q ≡ q + n * q = omega arith in
          let next = handle_event t tick se in
          let due = ticks t se positive early sent in
          let same_duration : keepalive_duration next ≡ keepalive_duration se =
            ap (λ k. k * second) due.same_keepalive in
          let same_deadline : deadline next ≡ deadline se =
            ap₂ ◌+◌ due.same_receive same_duration in
          let same_part : n * (keepalive_duration next / 16) ≡ n * q =
            ap (λ d. n * (d / 16)) same_duration in
          subst (IsStalled limit) (sym (idle-scheduled (suc n) now t se scheduled)) (
            idle-IsStalled n t due.due limit next due.scheduled (omega (arith, due.same_keepalive))
              due.sent (omega (arith, due.later, same_part, same_deadline))
              (omega (arith, due.soon, bound)) (omega (arith, same_deadline, same_duration)))
    ]

-- A session with a keepalive that takes no message after its start is found stalled by its 17th
-- tick, at most one and a half keepalives after the start.
pub establish-IsStalled :
    (s : State) (now : ℕ)
    → 0 < s.session_keepalive
    → IsStalled (now + s.session_keepalive * second * 3 / 2) (idle 17 now (establish s now))
unfolding establish deadline keepalive_duration
establish-IsStalled s now positive =
    let d = s.session_keepalive * second in
    let on : (s.session_keepalive == 0) ≡ false = ground arith in
    let first : (establish s now).next_tick ≡ some (now + d / 2) = rw on refl in
    idle-IsStalled 16 now (now + d / 2) (now + d * 3 / 2) (establish s now) first positive
      (omega arith) (omega arith) (omega arith) (omega arith)
