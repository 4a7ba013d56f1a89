-- ===== src/Bbc/Tests.antt =====
-- Runs of the connector on concrete transmissions.
use dtn.Prelude.{ℕ, refl, List, [], ◌∷◌, Option, none, some, true, false, arith}
use dtn.Bbc.Fragment.{Fragment, new_fragment}
use dtn.Bbc.Transmission.{new_plain_outgoing}
use dtn.Bbc.Connector.{Connector, send_loop, handle_all}
use dtn.Bbc.Sending.{Arrives, send-Arrives}
use dtn.Bbc.Interleaving.{Agree, only, handle_all-only}

abbrev as_bundle : List ℕ → Option (List ℕ)
as_bundle p = some p

abbrev no_transmission : Connector (List ℕ)
no_transmission = record {
  transmissions = λ k. none;
  fragment_out = [];
  fail_transmission = [];
  reports = [];
}

abbrev events : List (Option ℕ)
events = none ∷ some 3 ∷ none ∷ none ∷ []

send-Arrives_example :
    Arrives as_bundle no_transmission 2 7
      (10 ∷ 11 ∷ 12 ∷ [])
      (send_loop (new_plain_outgoing 7 (10 ∷ 11 ∷ 12 ∷ []) 4) events)
send-Arrives_example =
    send-Arrives as_bundle events no_transmission 7 (10 ∷ 11 ∷ 12 ∷ []) 4 (10 ∷ 11 ∷ 12 ∷ [])
      (omega arith) (omega arith) (omega arith) ((omega arith), tt) refl refl

abbrev mixed : List Fragment
mixed =
    new_fragment 1 0 true false false (10 ∷ [])
    ∷ new_fragment 2 0 true false false (20 ∷ [])
    ∷ new_fragment 1 1 false true false (11 ∷ [])
    ∷ new_fragment 2 1 false true false (21 ∷ [])
    ∷ []

handle_all-only_example :
    Agree 1
      (handle_all as_bundle no_transmission mixed)
      (handle_all as_bundle no_transmission (only 1 mixed))
handle_all-only_example =
    handle_all-only as_bundle 1 mixed no_transmission no_transmission (λ k t h. absurd cc)
      (λ k t h. absurd cc) (record { transmission = refl; reported = refl })
