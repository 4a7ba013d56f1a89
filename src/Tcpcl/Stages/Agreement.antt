-- ===== src/Tcpcl/Stages/Agreement.antt =====
-- pkg/cla/tcpclv4/internal/stages/contact.go and sess_init.go: two peers set up a session over the
-- octets of their messages.
use dtn.Prelude.{
  ℕ, zero, suc, min, ◌^◌, ◌<◌, ◌≤◌, ◌≡◌, refl, List, [], ◌∷◌, append-nil, none, some, Bool, true,
  false, ok, err, panic, length, arith,
}
use dtn.Bpv7.Endpoint.{EndpointType}
use dtn.Bpv7.Uri.{endpoint_string, endpoint_type_string}
use dtn.Bpv7.Uri.RoundTrip.{IsUri, new_endpoint_id-string}
use dtn.Tcpcl.Words.{Result}
use dtn.Tcpcl.Messages.{Message, contact_header, marshal, IsEncodable}
use dtn.Tcpcl.Messages.Reading.{read_message}
use dtn.Tcpcl.Messages.RoundTrip.{read_message-marshal}
use dtn.Tcpcl.Stages.{
  Configuration, State, Input, received, closed, new_state, send, own_contact_header,
  own_session_init, contact_begin, contact_receive, contact_handle, session_init_begin, negotiate,
  session_init_receive, session_init_handle,
}

-- The configuration of an active or a passive peer with this node ID.
abbrev pub as_peer : Bool → EndpointType → Configuration → Configuration
as_peer active e c = record c { active_peer = active; own_node_id = some e }

-- What one side knows when its stages have ended.
pub record Knows (own peer : Configuration) (s : State) : Type 0 where
  pub no_error : s.stage_error ≡ none
  pub peer_flags : s.contact_flags ≡ peer.own_flags
  pub keepalives : s.session_keepalive ≡ min own.own_keepalive peer.own_keepalive
  pub segment_size : s.segment_mtu ≡ peer.own_segment_mru
  pub transfer_size : s.transfer_mtu ≡ peer.own_transfer_mru
  pub peer_node : s.peer_node_id ≡ peer.own_node_id

pub Agree : Configuration → Configuration → State × State → Type 0
Agree a p (active, passive) =
    Knows a p active × Knows p a passive × (active.session_keepalive ≡ passive.session_keepalive)

module _ (limit : ℕ) where
  read_input : Result (Message × List ℕ) → Input
  read_input (ok (m, rest)) = received m
  read_input (err e) = closed
  read_input panic = closed

  -- What a peer gets of a message that the other has sent at this place; a peer that gets none
  -- waits until it is closed.
  unfoldable pub delivered : ℕ → List Message → Input
  unfolding read_input
  delivered n [] = closed
  delivered zero (m ∷ ms) = read_input (read_message limit (marshal m))
  delivered (suc n) (m ∷ ms) = delivered n ms

  -- Both stages of an active and of a passive peer, each on what the other has sent.
  unfoldable pub set_up : Configuration → Configuration → State × State
  set_up a p =
      let active = contact_begin (new_state a) in
      let passive = contact_handle (delivered 0 active.msg_out) (new_state p) in
      let active' = session_init_begin (contact_receive (delivered 0 passive.msg_out) active) in
      let passive' = session_init_handle (delivered 1 active'.msg_out) passive in
      (session_init_receive (delivered 1 passive'.msg_out) active', passive')

  -- The fields of a configuration that fit into the messages, and an endpoint that fits with them.
  pub record IsConfiguration (c : Configuration) (e : EndpointType) : Type 0 where
    pub flags : c.own_flags < 2 ^ 8
    pub keepalive : c.own_keepalive < 2 ^ 16
    pub segments : c.own_segment_mru < 2 ^ 64
    pub transfers : c.own_transfer_mru < 2 ^ 64
    pub uri : IsUri e
    pub short : length (endpoint_type_string e) < 2 ^ 16
    pub fits : length (endpoint_type_string e) ≤ limit

  first_delivered :
      (m : Message) (ms : List Message) → IsEncodable limit m → delivered 0 (m ∷ ms) ≡ received m
  unfolding delivered
  first_delivered m ms h =
      let back : read_message limit (marshal m) ≡ ok (m, []) =
        rw (append-nil (marshal m)) at (read_message-marshal [] limit m h) in
      rw back refl

  second_delivered :
      (m₁ m : Message) (ms : List Message)
      → IsEncodable limit m
      → delivered 1 (m₁ ∷ m ∷ ms) ≡ received m
  unfolding delivered
  second_delivered m₁ m ms h = first_delivered m ms h

  init-IsEncodable :
      (c : Configuration) (e : EndpointType) (active : Bool)
      → IsConfiguration c e
      → IsEncodable limit (own_session_init (new_state (as_peer active e c)))
  unfolding own_session_init new_state endpoint_string IsEncodable
  init-IsEncodable c e active h = (h.keepalive, h.segments, h.transfers, h.short, h.fits)

  header-IsEncodable :
      (c : Configuration) (e : EndpointType)
      → IsConfiguration c e
      → IsEncodable limit (contact_header c.own_flags)
  unfolding IsEncodable
  header-IsEncodable c e h = h.flags

  -- An active and a passive peer, with fields that fit into the messages, both end their stages
  -- without an error, with the other's segment and transfer sizes and node ID, and with one
  -- keepalive, the smaller of theirs.
  pub set_up-Agree :
      (a p : Configuration) (e f : EndpointType)
      → IsConfiguration a e
      → IsConfiguration p f
      → Agree (as_peer true e a) (as_peer false f p) (set_up (as_peer true e a) (as_peer false f p))
  unfolding set_up contact_begin contact_handle contact_receive session_init_begin
      session_init_handle session_init_receive negotiate new_state send own_contact_header
      own_session_init endpoint_string Agree
  set_up-Agree a p e f ha hp =
      rw (first_delivered (contact_header a.own_flags) [] (header-IsEncodable a e ha)) (
        rw (first_delivered (contact_header p.own_flags) [] (header-IsEncodable p f hp)) (
          rw
            (second_delivered (contact_header a.own_flags)
              (own_session_init (new_state (as_peer true e a))) [] (init-IsEncodable a e true ha))
            (rw
              (second_delivered (contact_header p.own_flags)
                (own_session_init (new_state (as_peer false f p))) []
                (init-IsEncodable p f false hp))
              (rw (new_endpoint_id-string e ha.uri, new_endpoint_id-string f hp.uri)
                (
                  record {
                    no_error = refl;
                    peer_flags = refl;
                    keepalives = refl;
                    segment_size = refl;
                    transfer_size = refl;
                    peer_node = refl;
                  },
                  record {
                    no_error = refl;
                    peer_flags = refl;
                    keepalives = refl;
                    segment_size = refl;
                    transfer_size = refl;
                    peer_node = refl;
                  },
                  omega arith,
                )))))
