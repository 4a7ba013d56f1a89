-- ===== src/Tcpcl/Tests.antt =====
-- Two transfers with an MTU of two bytes.
use dtn.Prelude.{ℕ, ◌≡◌, refl, List, [], ◌∷◌, Option, none, some, true, false, arith}
use dtn.Tcpcl.Messages.{Segment}
use dtn.Tcpcl.Transfer.{TransferManager, send_segments}
use dtn.Tcpcl.Sending.{outgoing}
use dtn.Tcpcl.Sending.Whole.{Completes, Waits, send-Completes, send-Waits}

abbrev as_bundle : List ℕ → Option (List ℕ)
as_bundle p = some p

abbrev idle : TransferManager (List ℕ)
idle = record {
  in_transfers = λ k. none;
  msg_out = [];
  bundles = [];
  out_feedback = λ k. false;
  feedback = [];
  failed = none;
}

send-Completes_example :
    (ss : List Segment) × (send_segments 4 2 0 (outgoing 7 true (1 ∷ 2 ∷ 3 ∷ 4 ∷ 5 ∷ []))
      ≡ some (ss, 5))
    × Completes as_bundle idle 7 0 ss (1 ∷ 2 ∷ 3 ∷ 4 ∷ 5 ∷ [])
send-Completes_example =
    send-Completes as_bundle 2 4 2 1 7 (1 ∷ 2 ∷ 3 ∷ 4 ∷ 5 ∷ []) idle (1 ∷ 2 ∷ 3 ∷ 4 ∷ 5 ∷ [])
      (omega arith) (omega arith) (omega arith) (omega arith) refl refl refl

send-Waits_example :
    (ss : List Segment) × (send_segments 3 2 0 (outgoing 7 true (1 ∷ 2 ∷ 3 ∷ 4 ∷ []))
      ≡ some (ss, 4))
    × Waits as_bundle idle 7 0 ss (1 ∷ 2 ∷ 3 ∷ 4 ∷ [])
send-Waits_example =
    send-Waits as_bundle 2 3 2 7 (1 ∷ 2 ∷ 3 ∷ 4 ∷ []) idle (omega arith) (omega arith) (omega arith)
      refl refl
