-- ===== src/Tcpcl/Sending/Whole.antt =====
-- All segments of one transfer: the peer reports the bundle, if the last segment is shorter than the
-- MTU, and else it waits for ever.
use dtn.Prelude.{
  ℕ, zero, suc, ◌+◌, ◌*◌, ◌≤◌, ◌<◌, ◌≡◌, refl, sym, ap, subst, ◌∙◌, List, [], ◌∷◌, ◌++◌,
  append_assoc, append-nil, map, Option, none, some, Bool, true, false, arith, length, take, drop,
  length-take, length-drop, length-append, take-append-drop,
}
use dtn.Tcpcl.Messages.{Segment, data_transmission}
use dtn.Tcpcl.Transfer.{
  send_segments, new_incoming_transfer, TransferManager, load_transfer, handle, handle_messages,
}
use dtn.Tcpcl.Sending.{
  outgoing, segment, acknowledgements, next_segment-full, next_segment-last, next_segment-none,
  Holds, Passes, handle-more_Holds, handle-more_Passes, handle-last_Passes, Passes-trans,
}

sends-more :
    (fuel mtu l tid : ℕ) (start : Bool) (p : List ℕ) (ss : List Segment) (total : ℕ)
    → mtu ≤ length p
    → send_segments fuel mtu (l + length (take mtu p)) (outgoing tid false (drop mtu p))
      ≡ some (ss, total)
    → send_segments (suc fuel) mtu l (outgoing tid start p)
      ≡ some (segment tid start false (take mtu p) ∷ ss, total)
unfolding send_segments
sends-more fuel mtu l tid start p ss total h e =
    rw (next_segment-full mtu tid start p h, send_segments) (rw e refl)

sends-none :
    (fuel mtu l tid : ℕ) (start : Bool)
    → 0 < fuel
    → 0 < mtu
    → send_segments fuel mtu l (outgoing tid start []) ≡ some ([], l)
unfolding send_segments
sends-none zero mtu l tid start f h = absurd (omega arith)
sends-none (suc fuel) mtu l tid start f h =
    rw (next_segment-none mtu tid start h, send_segments) refl

sends-last :
    (fuel mtu l tid : ℕ) (start : Bool) (x : ℕ) (p : List ℕ)
    → 1 < fuel
    → length (x ∷ p) < mtu
    → send_segments fuel mtu l (outgoing tid start (x ∷ p))
      ≡ some (segment tid start true (x ∷ p) ∷ [], l + length (x ∷ p))
unfolding send_segments
sends-last zero mtu l tid start x p f h = absurd (omega arith)
sends-last (suc fuel) mtu l tid start x p f h =
    rw (next_segment-last mtu tid start x p h, send_segments)
      (rw (sends-none fuel mtu (l + length (x ∷ p)) tid false (omega arith) (omega arith)) refl)

module _ {B : Type 0} (decode : List ℕ → Option B) where
  abbrev pub receive : TransferManager B → List Segment → TransferManager B
  receive m ss = handle_messages decode m (map data_transmission ss)

  -- The peer has received a whole transfer: it has acknowledged each segment with the number of bytes
  -- so far, has passed on the bundle, has forgotten the transfer, and goes on.
  pub record Completes (m : TransferManager B) (tid l : ℕ) (ss : List Segment) (b : B)
      : Type 0 where
    pub passes : Passes decode m (receive m ss) tid (acknowledgements l ss) (b ∷ [])
    pub forgotten : (receive m ss).in_transfers tid ≡ none
    pub goes_on : (receive m ss).failed ≡ none

  -- The peer has acknowledged each segment, but still waits for more of this transfer.
  pub record Waits (m : TransferManager B) (tid l : ℕ) (ss : List Segment) (bytes : List ℕ)
      : Type 0 where
    pub passes : Passes decode m (receive m ss) tid (acknowledgements l ss) []
    pub holds : Holds decode (receive m ss) tid bytes

  abbrev IsSent : ℕ → ℕ → ℕ → Bool → List ℕ → List ℕ → List Segment → Type 0
  IsSent fuel mtu tid start acc p ss =
      send_segments fuel mtu (length acc) (outgoing tid start p) ≡ some (ss, length acc + length p)

  IsSent-more :
      (fuel mtu tid : ℕ) (start : Bool) (acc p : List ℕ) (ss : List Segment)
      → mtu ≤ length p
      → IsSent fuel mtu tid false (acc ++ take mtu p) (drop mtu p) ss
      → IsSent (suc fuel) mtu tid start acc p (segment tid start false (take mtu p) ∷ ss)
  IsSent-more fuel mtu tid start acc p ss h e =
      let l = length-append acc (take mtu p) in
      let total : length (acc ++ take mtu p) + length (drop mtu p) ≡ length acc + length p =
        omega (arith, l, length-take mtu p, length-drop mtu p) in
      sends-more fuel mtu (length acc) tid start p ss _ h (
        subst
          (λ k.
            send_segments fuel mtu k (outgoing tid false (drop mtu p))
            ≡ some (ss, length acc + length p))
          l (e ∙ ap (λ k. some (ss, k)) total))

  receive_whole :
      (n fuel mtu r tid : ℕ) (start : Bool) (acc p : List ℕ) (m : TransferManager B) (b : B)
      → length p ≡ n * mtu + r
      → 0 < r
      → r < mtu
      → n + 2 ≤ fuel
      → Holds decode m tid acc
      → decode (acc ++ p) ≡ some b
      → (ss : List Segment) × IsSent fuel mtu tid start acc p ss × Completes m tid (length acc) ss b
  unfolding handle_messages
  receive_whole zero fuel mtu r tid start acc [] m b len pos small f h d = absurd (omega arith)
  receive_whole zero fuel mtu r tid start acc (x ∷ p) m b len pos small f h d =
      let (passes, forgotten, goes_on) = handle-last_Passes decode m tid start acc (x ∷ p) b h d in
      (
        segment tid start true (x ∷ p) ∷ [],
        sends-last fuel mtu (length acc) tid start x p (omega arith) (omega arith),
        record { passes = passes; forgotten = forgotten; goes_on = goes_on },
      )
  receive_whole (suc n) zero mtu r tid start acc p m b len pos small f h d = absurd (omega arith)
  receive_whole (suc n) (suc fuel) mtu r tid start acc p m b len pos small f h d =
      let long : mtu ≤ length p = omega arith in
      let first = length-take mtu p in
      let whole : (acc ++ take mtu p) ++ drop mtu p ≡ acc ++ p =
        append_assoc acc (take mtu p) (drop mtu p) ∙ ap (λ q. acc ++ q) (take-append-drop mtu p) in
      let next = handle decode m (data_transmission (segment tid start false (take mtu p))) in
      let (ss, sent, done) =
        receive_whole n fuel mtu r tid false (acc ++ take mtu p) (drop mtu p) next b
          (omega (arith, length-drop mtu p)) pos small (omega arith)
          (handle-more_Holds decode m tid start acc (take mtu p) h) (ap decode whole ∙ d) in
      (
        segment tid start false (take mtu p) ∷ ss,
        IsSent-more fuel mtu tid start acc p ss long sent,
        record {
          passes =
              Passes-trans decode m _ _ tid _ _ [] (b ∷ [])
                (handle-more_Passes decode m tid start acc (take mtu p) h)
                (subst
                  (λ k. Passes decode next (receive next ss) tid (acknowledgements k ss) (b ∷ []))
                  (length-append acc (take mtu p)) done.passes);
          forgotten = done.forgotten;
          goes_on = done.goes_on;
        },
      )

  receive_open :
      (n fuel mtu tid : ℕ) (start : Bool) (acc p : List ℕ) (m : TransferManager B)
      → length p ≡ n * mtu
      → 0 < mtu
      → n < fuel
      → Holds decode m tid acc
      → (ss : List Segment) × IsSent fuel mtu tid start acc p ss
        × Waits m tid (length acc) ss (acc ++ p)
  unfolding handle_messages
  receive_open zero fuel mtu tid start acc [] m len pos f h =
      let total : length acc ≡ length acc + 0 = omega arith in
      (
        [],
        sends-none fuel mtu (length acc) tid start f pos ∙ ap (λ k. some ([], k)) total,
        record {
          passes = record {
            acknowledged = sym (append-nil m.msg_out);
            delivered = sym (append-nil m.bundles);
            others = λ k ne. refl;
          };
          holds = subst (Holds decode m tid) (sym (append-nil acc)) h;
        },
      )
  receive_open zero fuel mtu tid start acc (x ∷ p) m len pos f h = absurd (omega arith)
  receive_open (suc n) zero mtu tid start acc p m len pos f h = absurd (omega arith)
  receive_open (suc n) (suc fuel) mtu tid start acc p m len pos f h =
      let long : mtu ≤ length p = omega arith in
      let whole : (acc ++ take mtu p) ++ drop mtu p ≡ acc ++ p =
        append_assoc acc (take mtu p) (drop mtu p) ∙ ap (λ q. acc ++ q) (take-append-drop mtu p) in
      let next = handle decode m (data_transmission (segment tid start false (take mtu p))) in
      let (ss, sent, waits) =
        receive_open n fuel mtu tid false (acc ++ take mtu p) (drop mtu p) next
          (omega (arith, length-drop mtu p)) pos (omega arith)
          (handle-more_Holds decode m tid start acc (take mtu p) h) in
      (
        segment tid start false (take mtu p) ∷ ss,
        IsSent-more fuel mtu tid start acc p ss long sent,
        record {
          passes =
              Passes-trans decode m _ _ tid _ _ [] []
                (handle-more_Passes decode m tid start acc (take mtu p) h)
                (subst (λ k. Passes decode next (receive next ss) tid (acknowledgements k ss) [])
                  (length-append acc (take mtu p)) waits.passes);
          holds = subst (Holds decode (receive next ss) tid) whole waits.holds;
        },
      )

  new-Holds :
      (m : TransferManager B) (tid : ℕ)
      → m.in_transfers tid ≡ none
      → m.failed ≡ none
      → Holds decode m tid []
  unfolding load_transfer new_incoming_transfer
  new-Holds m tid fresh runs = record { loaded = rw (fresh, load_transfer) refl; running = runs }

  -- If the bytes of a bundle are some full segments and a rest that is not empty and shorter than the
  -- MTU, then Send's goroutine ends after sending all bytes; and a peer that has no error and no
  -- transfer of this ID acknowledges each segment with the number of bytes so far, passes on exactly
  -- the bundle that they decode to, has no transfer of this ID afterwards, and leaves all others.
  pub send-Completes :
      (n fuel mtu r tid : ℕ) (p : List ℕ) (m : TransferManager B) (b : B)
      → length p ≡ n * mtu + r
      → 0 < r
      → r < mtu
      → n + 2 ≤ fuel
      → m.in_transfers tid ≡ none
      → m.failed ≡ none
      → decode p ≡ some b
      → (ss : List Segment) × (send_segments fuel mtu 0 (outgoing tid true p) ≡ some (ss, length p))
        × Completes m tid 0 ss b
  send-Completes n fuel mtu r tid p m b len pos small f fresh runs d =
      let (ss, sent, done) =
        receive_whole n fuel mtu r tid true [] p m b len pos small f (new-Holds m tid fresh runs)
          d in
      let total : 0 + length p ≡ length p = omega arith in
      (ss, sent ∙ ap (λ k. some (ss, k)) total, done)

  -- If the number of bytes of a bundle is a multiple of an MTU that is not zero, then Send's
  -- goroutine ends after sending all bytes, and a peer that has no error and no transfer of this ID
  -- acknowledges each of them; but the peer passes on no bundle, and keeps the transfer open with
  -- all of its bytes.
  pub send-Waits :
      (n fuel mtu tid : ℕ) (p : List ℕ) (m : TransferManager B)
      → length p ≡ n * mtu
      → 0 < mtu
      → n < fuel
      → m.in_transfers tid ≡ none
      → m.failed ≡ none
      → (ss : List Segment) × (send_segments fuel mtu 0 (outgoing tid true p) ≡ some (ss, length p))
        × Waits m tid 0 ss p
  send-Waits n fuel mtu tid p m len pos f fresh runs =
      let (ss, sent, waits) =
        receive_open n fuel mtu tid true [] p m len pos f (new-Holds m tid fresh runs) in
      let total : 0 + length p ≡ length p = omega arith in
      (ss, sent ∙ ap (λ k. some (ss, k)) total, waits)
