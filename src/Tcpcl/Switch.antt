-- ===== src/Tcpcl/Switch.antt =====
-- pkg/cla/tcpclv4/internal/utils/message_switch_readerwriter.go: messages are exchanged over an
-- octet stream. A switch that is not closed is modelled, on a stream that ends.
use dtn.Prelude.{
  ℕ, zero, suc, ◌⊎◌, inl, inr, ◌^◌, ◌<◌, ◌≤◌, ◌≡◌, refl, List, [], ◌∷◌, ◌++◌, Option, none, some,
  ok, err, panic, length, All, arith,
}
use mathlib.Core.Option
use dtn.Tcpcl.Words.{ReadError, end_of_input, Result}
use dtn.Tcpcl.Messages.{Message, marshal, IsEncodable}
use dtn.Tcpcl.Messages.Reading.{read_message}
use dtn.Tcpcl.Messages.RoundTrip.{read_message-marshal}
use dtn.Tcpcl.Messages.Accepted.Endings.{IsByte}
use dtn.Tcpcl.Messages.Accepted.{IsProper, read_message-IsProper, read_message-nil}

-- How the reading goroutine ends: with an error for errChan, or with a panic.
pub data Ending : Type 0 where
  reported : ReadError → Ending
  crashed : Ending

-- handleOut: what is written to the stream.
unfoldable pub handle_out : List Message → List ℕ
handle_out [] = []
handle_out (m ∷ ms) = marshal m ++ handle_out ms

module _ (limit : ℕ) where
  -- One round of the loop of handleIn, before the others.
  handle_in_round :
      (List ℕ → Option (List Message × Ending))
      → Result (Message × List ℕ)
      → Option (List Message × Ending)
  handle_in_round others (ok (m, rest)) = Option.map (λ (ms, end). (m ∷ ms, end)) (others rest)
  handle_in_round others (err e) = some ([], reported e)
  handle_in_round others panic = some ([], crashed)

  -- The messages of handleIn on inChan, and its end. No result: out of fuel.
  unfoldable pub handle_in : ℕ → List ℕ → Option (List Message × Ending)
  unfolding handle_in_round
  handle_in zero bytes = none
  handle_in (suc fuel) bytes = handle_in_round (handle_in fuel) (read_message limit bytes)

  -- What one switch writes, the other hands on, in the same order: all messages with valid fields
  -- arrive, on one round of the loop for each and one for the end of the stream.
  pub handle_in-handle_out :
      (ms : List Message)
      → All (IsEncodable limit) ms
      → handle_in (suc (length ms)) (handle_out ms) ≡ some (ms, reported end_of_input)
  unfolding handle_out handle_in
  handle_in-handle_out [] h = rw (read_message-nil limit) refl
  handle_in-handle_out (m ∷ ms) (hm, h) =
      rw (read_message-marshal (handle_out ms) limit m hm, handle_in-handle_out ms h) refl

  Result-cases :
      (r : Result (Message × List ℕ))
      → ((e : ReadError) × (r ≡ err e))
        ⊎ (r ≡ panic)
        ⊎ ((m : Message) × (rest : List ℕ) × (r ≡ ok (m, rest)))
  Result-cases (ok (m, rest)) = inr (inr (m, rest, refl))
  Result-cases (err e) = inl (e, refl)
  Result-cases panic = inr (inl refl)

  pub IsHandled : List ℕ → Option (List Message × Ending) → Type 0
  IsHandled bytes handled =
      (ms : List Message) × (end : Ending) × (handled ≡ some (ms, end))
      × All (IsEncodable limit) ms
      × (length ms ≤ length bytes)

  -- If allocations of 2 ^ 32 octets are possible, the loop ends within one round more than the
  -- stream has octets, and it hands on at most one message for each octet, all of them with valid
  -- fields.
  pub handle_in-IsHandled :
      (fuel : ℕ) (bytes : List ℕ)
      → 2 ^ 32 ≤ limit
      → All IsByte bytes
      → length bytes < fuel
      → IsHandled bytes (handle_in fuel bytes)
  unfolding handle_in IsProper IsHandled
  handle_in-IsHandled zero bytes large all h = absurd (omega arith)
  handle_in-IsHandled (suc fuel) bytes large all h =
      elim (Result-cases (read_message limit bytes)) [
        | inl (e, failed) ↦ ([], reported e, rw failed refl, tt, omega arith)
        | inr (inl failed) ↦ ([], crashed, rw failed refl, tt, omega arith)
        | inr (inr (m, rest, done)) ↦
            let (encodable, fewer, left) =
              read_message-IsProper limit bytes m rest large all done in
            let (ms, end, others, encodables, few) =
              handle_in-IsHandled fuel rest large left (omega arith) in
            (m ∷ ms, end, rw (done, others) refl, (encodable, encodables), omega arith)
      ]
