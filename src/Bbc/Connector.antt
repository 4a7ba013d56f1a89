-- ===== src/Bbc/Connector.antt =====
-- connector.go: a connector sends and receives transmissions. `decode` stands for decompression
-- and parsing of a finished transmission's payload, with no result for an error.
use dtn.Prelude.{
  ℕ, List, [], ◌∷◌, ◌++◌, Option, none, some, Run, ok, err, panic, ◌>>=◌, ◌==◌, if◌then◌else◌,
}
use dtn.Bbc.Fragment.{Error, Fragment, report_failure, fail_bit}
use dtn.Bbc.Transmission.{
  IncomingTransmission, OutgoingTransmission, new_incoming, read_fragment, write_fragment,
}

-- How a call of Send goes on: it has returned, or it waits for its next turn.
pub data Status : Type 0 where
  sent peer_failed panicked running : Status
  failed : Error → Status

-- The loop of Send. Each round of its select is an event: a failed transmission ID that the reader
-- has reported, or none, and then a fragment is written. The fragments go to the modem in order.
unfoldable pub send_loop : OutgoingTransmission → List (Option ℕ) → List Fragment × Status
send_loop t [] = ([], running)
send_loop t (some tid ∷ events) =
    let rest = send_loop t events in if tid == t.out_id then ([], peer_failed) else rest
send_loop t (none ∷ events) = elim (write_fragment t) [
  | ok (t', f, fin) ↦
      let rest = send_loop t' events in if fin then (f ∷ [], sent) else (f ∷ rest.0, rest.1)
  | err e ↦ ([], failed e)
  | panic ↦ ([], panicked)
]

-- What the connector has received so far: the open transmissions by their ID, the failure fragments
-- that it broadcasts, the IDs that it reports to Send, and the bundles that it reports.
pub record Connector (B : Type 0) : Type 0 where
  pub transmissions : ℕ → Option IncomingTransmission
  pub fragment_out : List Fragment
  pub fail_transmission : List ℕ
  pub reports : List (ℕ × B)

abbrev pub store {ℓ} : {A : Type ℓ} → (ℕ → A) → ℕ → A → ℕ → A
store m k v j = if j == k then v else m j

module _ {B : Type 0} (decode : List ℕ → Option B) where
  abbrev pub failing : Connector B → Fragment → Connector B
  failing c f = record c { fragment_out = c.fragment_out ++ report_failure f ∷ [] }

  -- A transmission that has just been read into, which is known under its ID.
  unfoldable pub finish : Connector B → Fragment → IncomingTransmission → Connector B
  finish c f t =
      let known = record c { transmissions = store c.transmissions t.in_id (some t) } in
      let closed = record c { transmissions = store c.transmissions t.in_id none } in
      if t.in_finished
      then elim (decode t.in_payload) [
        | some b ↦ record closed { reports = closed.reports ++ (t.in_id, b) ∷ [] }
        | none ↦ failing closed f
      ]
      else known

  -- The transmission that a fragment was read into, or an error, which leaves `c'`.
  unfoldable pub finish_or_fail :
      Connector B → Connector B → Fragment → Run Error IncomingTransmission → Connector B
  finish_or_fail c c' f (ok t) = finish c f t
  finish_or_fail c c' f (err e) = failing c' f
  finish_or_fail c c' f panic = c

  -- handleIncomingNewTransmission, and the rest of handleIncomingFragment.
  unfoldable pub handle_new : Connector B → Fragment → Connector B
  unfolding finish_or_fail
  handle_new c f = finish_or_fail c c f (new_incoming f)

  -- handleIncomingKnownTransmission, which closes the transmission on an error, and the rest.
  unfoldable pub handle_known : Connector B → Fragment → IncomingTransmission → Connector B
  unfolding finish_or_fail
  handle_known c f t =
      finish_or_fail c (record c { transmissions = store c.transmissions t.in_id none }) f
        (read_fragment t f >>= λ (t', fin). ok t')

  unfoldable pub handle_incoming_fragment : Connector B → Fragment → Connector B
  handle_incoming_fragment c f =
      if fail_bit f
      then record c { fail_transmission = c.fail_transmission ++ f.transmission_id ∷ [] }
      else elim (c.transmissions f.transmission_id) [
        | none ↦ handle_new c f
        | some t ↦ handle_known c f t
      ]

  unfoldable pub handle_all : Connector B → List Fragment → Connector B
  handle_all c [] = c
  handle_all c (f ∷ fs) = handle_all (handle_incoming_fragment c f) fs
