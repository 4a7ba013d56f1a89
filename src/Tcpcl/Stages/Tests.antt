-- ===== src/Tcpcl/Stages/Tests.antt =====
-- Sessions with a keepalive of 30 seconds.
use dtn.Prelude.{ℕ, ◌+◌, ◌*◌, ◌/◌, ◌^◌, ◌≡◌, refl, ◌⊎◌, List, [], ◌∷◌, none, true, false, arith}
use dtn.Bpv7.Endpoint.{EndpointType, ipn_endpoint}
use dtn.Bpv7.Uri.{endpoint_type_string, decimal_digits}
use dtn.Tcpcl.Messages.{Message, keepalive, data_transmission}
use dtn.Tcpcl.Stages.{Configuration, State, new_state, send}
use dtn.Tcpcl.Stages.Agreement.{IsConfiguration, as_peer, Agree, set_up, set_up-Agree}
use dtn.Tcpcl.Stages.Established.{
  Event, close, tick, message_in, message_out, Session, second, establish, message_out_at, hand_on,
  handle_msg_in, handle_event, fail, run, unless_failed,
}
use dtn.Tcpcl.Stages.Established.Keepalive.{IsStalled, idle, establish-IsStalled}
use dtn.Tcpcl.Stages.Established.Regular.{IsScheduled, Prompt, Stopped, run-IsScheduled}
use dtn.Tcpcl.Stages.Established.Ending.{EndsWithTerm, run-EndsWithTerm}

abbrev endpoint : ℕ → EndpointType
endpoint n = ipn_endpoint record { node = n; service = 1 }

abbrev client : Configuration
client = record {
  active_peer = true;
  own_flags = 0;
  own_keepalive = 30;
  own_segment_mru = 1048576;
  own_transfer_mru = 1073741824;
  own_node_id = none;
}

client-IsConfiguration : IsConfiguration (2 ^ 32) client (endpoint 5)
unfolding endpoint_type_string decimal_digits
client-IsConfiguration = record {
  flags = omega arith;
  keepalive = omega arith;
  segments = omega arith;
  transfers = omega arith;
  uri = (omega arith, omega arith, omega arith, omega arith);
  short = omega arith;
  fits = omega arith;
}

set_up-Agree_example :
    Agree
      (as_peer true (endpoint 5) client)
      (as_peer false (endpoint 5) client)
      (set_up (2 ^ 32) (as_peer true (endpoint 5) client) (as_peer false (endpoint 5) client))
set_up-Agree_example =
    set_up-Agree (2 ^ 32) client client (endpoint 5) (endpoint 5) client-IsConfiguration
      client-IsConfiguration

abbrev established : State
established = record (new_state client) { session_keepalive = 30 }

abbrev session : Session
session = establish established 0

abbrev data_message : Message
data_message = data_transmission record { flags = 3; transfer_id = 0; data_bytes = 7 ∷ [] }

abbrev events : List (ℕ × Event)
events =
    (1, message_in data_message)
    ∷ (2, message_out keepalive)
    ∷ (3, close)
    ∷ (4, message_in data_message)
    ∷ []

session-running : session.state.stage_error ≡ none
unfolding establish new_state
session-running = refl

run-EndsWithTerm_example : EndsWithTerm (run events session)
unfolding run unless_failed handle_event handle_msg_in message_out_at send fail hand_on establish
    new_state
run-EndsWithTerm_example = run-EndsWithTerm events session session-running refl

establish-IsStalled_example :
    IsStalled (5 + 30 * second * 3 / 2) (idle 17 5 (establish established 5))
unfolding new_state
establish-IsStalled_example = establish-IsStalled established 5 (omega arith)

first_tick : Prompt ((15 * second, tick) ∷ []) session
unfolding Prompt establish new_state
first_tick = (
  record {
    due_at = 15 * second;
    next = refl;
    no_later = omega arith;
    tick_on_time = λ _. refl;
    not_before = omega arith;
  },
  tt,
)

run-IsScheduled_example :
    Stopped (run ((15 * second, tick) ∷ []) session)
    ⊎ IsScheduled 30 (run ((15 * second, tick) ∷ []) session)
unfolding new_state
run-IsScheduled_example =
    run-IsScheduled established 0 ((15 * second, tick) ∷ []) (omega arith) first_tick
