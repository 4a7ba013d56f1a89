-- ===== src/Tcpcl/Messages/Tests.antt =====
-- Messages of TCPCLv4 at concrete octets.
use dtn.Prelude.{ℕ, ◌^◌, ◌≡◌, ◌≢◌, [], ◌∷◌, ◌++◌, ok, panic, arith, some}
use dtn.Tcpcl.Words.{put_uint, end_of_input}
use dtn.Tcpcl.Messages.{Message, session_init, data_transmission, keepalive, marshal, IsEncodable}
use dtn.Tcpcl.Messages.Reading.{read_message}
use dtn.Tcpcl.Messages.RoundTrip.{read_message-marshal}
use dtn.Tcpcl.Messages.Accepted.{IsProper, read_message-IsProper, read_message-panic}
use dtn.Tcpcl.Switch.{
  handle_out, handle_in, reported, IsHandled, handle_in-handle_out, handle_in-IsHandled,
}

abbrev gibibytes : ℕ
gibibytes = 2 ^ 32

abbrev hello : Message
hello = session_init record {
  keepalive_interval = 30;
  segment_mru = 1048576;
  transfer_mru = 1073741824;
  node_id = b'd' ∷ b't' ∷ b'n' ∷ b':' ∷ b'/' ∷ b'/' ∷ b'a' ∷ b'/' ∷ [];
}

abbrev segment : Message
segment = data_transmission record { flags = 3; transfer_id = 1; data_bytes = 7 ∷ 8 ∷ [] }

hello-IsEncodable : IsEncodable gibibytes hello
unfolding IsEncodable
hello-IsEncodable = (omega arith, omega arith, omega arith, omega arith, omega arith)

segment-IsEncodable : IsEncodable gibibytes segment
unfolding IsEncodable
segment-IsEncodable = (omega arith, omega arith, omega arith, omega arith)

keepalive-IsEncodable : IsEncodable gibibytes keepalive
unfolding IsEncodable
keepalive-IsEncodable = tt

read_message-marshal_example :
    read_message gibibytes (marshal hello ++ (4 ∷ [])) ≡ ok (hello, 4 ∷ [])
read_message-marshal_example = read_message-marshal (4 ∷ []) gibibytes hello hello-IsEncodable

read_message-IsProper_example : IsProper gibibytes (4 ∷ 4 ∷ []) (keepalive, 4 ∷ [])
unfolding marshal put_uint IsEncodable
read_message-IsProper_example =
    read_message-IsProper gibibytes (4 ∷ 4 ∷ []) keepalive (4 ∷ []) (omega arith)
      (omega arith, (omega arith, tt)) (read_message-marshal (4 ∷ []) gibibytes keepalive tt)

read_message-panic_example : read_message gibibytes (5 ∷ 1 ∷ 9 ∷ []) ≢ panic
read_message-panic_example =
    read_message-panic gibibytes 5 (1 ∷ 9 ∷ []) (omega arith)
      (omega arith, (omega arith, (omega arith, tt))) (λ e. absurd (omega (arith, e)))

-- 2 ^ 63 octets are announced, and one follows.
handle_in-handle_out_example :
    handle_in gibibytes 4 (handle_out (hello ∷ segment ∷ keepalive ∷ []))
    ≡ some (hello ∷ segment ∷ keepalive ∷ [], reported end_of_input)
handle_in-handle_out_example =
    handle_in-handle_out gibibytes (hello ∷ segment ∷ keepalive ∷ [])
      (hello-IsEncodable, (segment-IsEncodable, (keepalive-IsEncodable, tt)))

handle_in-IsHandled_example : IsHandled gibibytes (4 ∷ 9 ∷ []) (handle_in gibibytes 3 (4 ∷ 9 ∷ []))
handle_in-IsHandled_example =
    handle_in-IsHandled gibibytes 3 (4 ∷ 9 ∷ []) (omega arith) (omega arith, (omega arith, tt))
      (omega arith)
