-- ===== src/Tcpcl/Stages.antt =====
-- pkg/cla/tcpclv4/internal/stages: the state of a session, and the stages that set it up. The
-- channels to the peer and to the transfers are the lists of what was sent on them.
use dtn.Prelude.{ℕ, min, List, [], ◌∷◌, ◌++◌, Option, none, some, Bool, true, false, if◌then◌else◌}
use mathlib.Core.Option
use dtn.Bpv7.Endpoint.{EndpointId, EndpointType}
use dtn.Bpv7.Uri.{endpoint_string, new_endpoint_id}
use dtn.Tcpcl.Messages.{Message, SessionInit, session_init, contact_header}
pub mod Agreement
pub mod Established
mod Tests

pub record Configuration : Type 0 where
  pub active_peer : Bool
  pub own_flags : ℕ
  pub own_keepalive : ℕ
  pub own_segment_mru : ℕ
  pub own_transfer_mru : ℕ
  pub own_node_id : EndpointId

-- StageClose, the other errors of the stages, and those of the hooks.
pub data StageError : Type 0 where
  stage_close invalid_node_id stalled_session unexpected_session_init hook_failed : StageError
  unexpected_type : Message → StageError

pub record State : Type 0 where
  pub configuration : Configuration
  pub msg_out : List Message
  pub exchange_msg_in : List Message
  pub stage_error : Option StageError
  pub contact_flags : ℕ
  pub session_keepalive : ℕ
  pub segment_mtu : ℕ
  pub transfer_mtu : ℕ
  pub peer_node_id : EndpointId

-- What a stage waits for: that it is closed, or a message of the peer.
pub data Input : Type 0 where
  closed : Input
  received : Message → Input

-- The state of NewStageHandler.
unfoldable pub new_state : Configuration → State
new_state config = record {
  configuration = config;
  msg_out = [];
  exchange_msg_in = [];
  stage_error = none;
  contact_flags = 0;
  session_keepalive = 0;
  segment_mtu = 0;
  transfer_mtu = 0;
  peer_node_id = none;
}

unfoldable pub send : Message → State → State
send m s = record s { msg_out = s.msg_out ++ m ∷ [] }

unfoldable pub own_contact_header : State → Message
own_contact_header s = contact_header s.configuration.own_flags

unfoldable pub own_session_init : State → Message
own_session_init s = session_init record {
  keepalive_interval = s.configuration.own_keepalive;
  segment_mru = s.configuration.own_segment_mru;
  transfer_mru = s.configuration.own_transfer_mru;
  node_id = endpoint_string s.configuration.own_node_id;
}

-- An active peer starts with its message, before it waits.
unfoldable pub contact_begin : State → State
contact_begin s = if s.configuration.active_peer then send (own_contact_header s) s else s

-- The rest of ContactStage.Handle; a passive peer answers with its own header.
unfoldable pub contact_receive : Input → State → State
contact_receive closed s = record s { stage_error = some stage_close }
contact_receive (received (contact_header flags)) s =
    let s' : State = record s { contact_flags = flags } in
    if s.configuration.active_peer then s' else send (own_contact_header s) s'
contact_receive (received m) s = record s { stage_error = some (unexpected_type m) }

unfoldable pub contact_handle : Input → State → State
contact_handle input s = contact_receive input (contact_begin s)

unfoldable pub session_init_begin : State → State
session_init_begin s = if s.configuration.active_peer then send (own_session_init s) s else s

-- The end of SessInitStage.Handle, with the peer's message; without a valid node ID there is an
-- error and the empty ID.
unfoldable pub negotiate : SessionInit → State → State
negotiate si s = record s {
  session_keepalive = min s.configuration.own_keepalive si.keepalive_interval;
  segment_mtu = si.segment_mru;
  transfer_mtu = si.transfer_mru;
  peer_node_id = new_endpoint_id si.node_id;
  stage_error = elim (new_endpoint_id si.node_id) [ some e ↦ none | none ↦ some invalid_node_id ];
}

-- The rest of SessInitStage.Handle.
unfoldable pub session_init_receive : Input → State → State
session_init_receive closed s = record s { stage_error = some stage_close }
session_init_receive (received (session_init si)) s =
    negotiate si (if s.configuration.active_peer then s else send (own_session_init s) s)
session_init_receive (received m) s = record s { stage_error = some (unexpected_type m) }

unfoldable pub session_init_handle : Input → State → State
session_init_handle input s = session_init_receive input (session_init_begin s)
