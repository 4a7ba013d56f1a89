-- ===== src/Tcpcl/Sending.antt =====
-- TransferManager.Send against TransferManager.handle of the peer: the segments of one transfer.
pub mod Whole
use mathlib.Core.Option
use dtn.Prelude.{
  ℕ, zero, suc, ◌+◌, ◌*◌, ◌≤◌, ◌<◌, ◌≡◌, ◌≢◌, refl, sym, ap, ap₂, subst, ◌∙◌, List, [], ◌∷◌, ◌++◌,
  append_assoc, append-nil, map, Option, none, some, Bool, true, false, ok, arith, length, take,
  drop, leb, length-take, length-drop, length-append, take-append-drop, ◌==◌, ==_iff, if◌then◌else◌,
  inl, inr, Bool-cases,
}
use dtn.Tcpcl.Messages.{Segment, Acknowledgement, data_transmission}
use dtn.Tcpcl.Transfer.{
  OutgoingTransfer, IncomingTransfer, segment_flags, read_full, next_segment, send_segments,
  new_incoming_transfer, ends, receive_segment, TransferManager, store, load_transfer,
  finish_transfer, handle_segment, handle, unless_failed, handle_messages,
}

abbrev pub outgoing : ℕ → Bool → List ℕ → OutgoingTransfer
outgoing tid start p = record { out_id = tid; start_flag = start; data_stream = p }

abbrev pub incoming : ℕ → Bool → List ℕ → IncomingTransfer
incoming tid end bytes = record { in_id = tid; end_flag = end; buf = bytes }

abbrev segment : ℕ → Bool → Bool → List ℕ → Segment
segment tid start end bytes = record {
  flags = segment_flags start end;
  transfer_id = tid;
  data_bytes = bytes;
}

ends-segment_flags : (start end : Bool) → ends (segment_flags start end) ≡ end
unfolding ends segment_flags
ends-segment_flags true true = refl
ends-segment_flags true false = refl
ends-segment_flags false true = refl
ends-segment_flags false false = refl

-- The acknowledgements of segments, when so many bytes were there before.
abbrev pub acknowledgements : ℕ → List Segment → List Acknowledgement
acknowledgements l [] = []
acknowledgements l (s ∷ ss) =
    record { ack_flags = s.flags; ack_id = s.transfer_id; ack_len = l + length s.data_bytes }
    ∷ acknowledgements (l + length s.data_bytes) ss

next_segment-full :
    (mtu tid : ℕ) (start : Bool) (p : List ℕ)
    → mtu ≤ length p
    → next_segment mtu (outgoing tid start p)
      ≡ some (outgoing tid false (drop mtu p), segment tid start false (take mtu p))
unfolding next_segment read_full
next_segment-full mtu tid start p h =
    let fits : leb mtu (length p) ≡ true = ground arith in rw (fits, read_full, next_segment) refl

next_segment-last :
    (mtu tid : ℕ) (start : Bool) (x : ℕ) (p : List ℕ)
    → length (x ∷ p) < mtu
    → next_segment mtu (outgoing tid start (x ∷ p))
      ≡ some (outgoing tid false [], segment tid start true (x ∷ p))
unfolding next_segment read_full
next_segment-last mtu tid start x p h =
    let short : leb mtu (length (x ∷ p)) ≡ false = ground arith in
    rw (short, read_full, next_segment) refl

next_segment-none :
    (mtu tid : ℕ) (start : Bool) → 0 < mtu → next_segment mtu (outgoing tid start []) ≡ none
unfolding next_segment read_full
next_segment-none mtu tid start h =
    let short : leb mtu 0 ≡ false = ground arith in rw (short, read_full, next_segment) refl

module _ {B : Type 0} (decode : List ℕ → Option B) where
  -- The manager goes on, and for this transfer it has exactly these bytes.
  pub record Holds (m : TransferManager B) (tid : ℕ) (bytes : List ℕ) : Type 0 where
    pub loaded : load_transfer decode m tid ≡ incoming tid false bytes
    pub running : m.failed ≡ none

  -- What a manager has passed on, and the transfers with other IDs, compared with an earlier one.
  pub record Passes (m m' : TransferManager B) (tid : ℕ) (acks : List Acknowledgement) (bs : List B)
      : Type 0 where
    pub acknowledged : m'.msg_out ≡ m.msg_out ++ acks
    pub delivered : m'.bundles ≡ m.bundles ++ bs
    pub others : (k : ℕ) → k ≢ tid → m'.in_transfers k ≡ m.in_transfers k

  after_segment : TransferManager B → ℕ → Bool → Bool → List ℕ → List ℕ → TransferManager B
  after_segment m tid start end bytes d = record m {
    in_transfers = store m.in_transfers tid (some (incoming tid end (bytes ++ d)));
    msg_out =
        m.msg_out
        ++ (record {
          ack_flags = segment_flags start end;
          ack_id = tid;
          ack_len = length (bytes ++ d);
        }
            ∷ []);
  }

  handle-running :
      (m : TransferManager B) (s : Segment)
      → m.failed ≡ none
      → handle decode m (data_transmission s) ≡ handle_segment decode m s
  unfolding handle
  handle-running m s h = ap (λ f. unless_failed decode f m (handle_segment decode m s)) h

  handle-more :
      (m : TransferManager B) (tid : ℕ) (start : Bool) (bytes d : List ℕ)
      → Holds m tid bytes
      → handle decode m (data_transmission (segment tid start false d))
        ≡ after_segment m tid start false bytes d
  unfolding handle_segment receive_segment after_segment
  handle-more m tid start bytes d h =
      handle-running m _ h.running
      ∙ rw (h.loaded, (==_iff tid tid).1 refl, ends-segment_flags start false) refl

  handle-last :
      (m : TransferManager B) (tid : ℕ) (start : Bool) (bytes d : List ℕ)
      → Holds m tid bytes
      → handle decode m (data_transmission (segment tid start true d))
        ≡ finish_transfer decode
            (after_segment m tid start true bytes d)
            (incoming tid true (bytes ++ d))
  unfolding handle_segment receive_segment after_segment
  handle-last m tid start bytes d h =
      handle-running m _ h.running
      ∙ rw (h.loaded, (==_iff tid tid).1 refl, ends-segment_flags start true) refl

  after_segment-Holds :
      (m : TransferManager B) (tid : ℕ) (start : Bool) (bytes d : List ℕ)
      → Holds m tid bytes
      → Holds (after_segment m tid start false bytes d) tid (bytes ++ d)
  unfolding after_segment load_transfer
  after_segment-Holds m tid start bytes d h = record {
    loaded = rw ((==_iff tid tid).1 refl, load_transfer) refl;
    running = h.running;
  }

  store-other :
      (m : ℕ → Option IncomingTransfer) (tid k : ℕ) (t : Option IncomingTransfer)
      → k ≢ tid
      → store m tid t k ≡ m k
  store-other m tid k t ne = ground arith

  handle-more_Holds :
      (m : TransferManager B) (tid : ℕ) (start : Bool) (bytes d : List ℕ)
      → Holds m tid bytes
      → Holds (handle decode m (data_transmission (segment tid start false d))) tid (bytes ++ d)
  handle-more_Holds m tid start bytes d h =
      subst (λ k. Holds k tid (bytes ++ d)) (sym (handle-more m tid start bytes d h))
        (after_segment-Holds m tid start bytes d h)

  handle-more_Passes :
      (m : TransferManager B) (tid : ℕ) (start : Bool) (bytes d : List ℕ)
      → Holds m tid bytes
      → Passes m
          (handle decode m (data_transmission (segment tid start false d)))
          tid
          (acknowledgements (length bytes) (segment tid start false d ∷ []))
          []
  unfolding after_segment
  handle-more_Passes m tid start bytes d h =
      subst
        (λ k. Passes m k tid (acknowledgements (length bytes) (segment tid start false d ∷ [])) [])
        (sym (handle-more m tid start bytes d h))
        (record {
          acknowledged =
              ap
                (λ l.
                  m.msg_out
                  ++ (record { ack_flags = segment_flags start false; ack_id = tid; ack_len = l }
                      ∷ []))
                (length-append bytes d);
          delivered = sym (append-nil m.bundles);
          others = λ k ne. store-other m.in_transfers tid k _ ne;
        })

  handle-last_Passes :
      (m : TransferManager B) (tid : ℕ) (start : Bool) (bytes d : List ℕ) (b : B)
      → Holds m tid bytes
      → decode (bytes ++ d) ≡ some b
      → let m' = handle decode m (data_transmission (segment tid start true d)) in
        Passes m m' tid (acknowledgements (length bytes) (segment tid start true d ∷ [])) (b ∷ [])
        × (m'.in_transfers tid ≡ none)
        × (m'.failed ≡ none)
  unfolding after_segment finish_transfer
  handle-last_Passes m tid start bytes d b h e =
      let finished : handle decode m (data_transmission (segment tid start true d))
          ≡ record (after_segment m tid start true bytes d) {
            in_transfers = store (after_segment m tid start true bytes d).in_transfers tid none;
            bundles = m.bundles ++ b ∷ [];
          } =
        handle-last m tid start bytes d h ∙ rw (e, finish_transfer) refl in
      subst
        (λ k.
          Passes m k tid (acknowledgements (length bytes) (segment tid start true d ∷ [])) (b ∷ [])
          × (k.in_transfers tid ≡ none)
          × (k.failed ≡ none))
        (sym finished)
        (
          record {
            acknowledged =
                ap
                  (λ l.
                    m.msg_out
                    ++ (record { ack_flags = segment_flags start true; ack_id = tid; ack_len = l }
                        ∷ []))
                  (length-append bytes d);
            delivered = refl;
            others = λ k ne. ground arith;
          },
          ground arith,
          h.running,
        )

  Passes-trans :
      (m k n : TransferManager B) (tid : ℕ) (xs cs : List Acknowledgement) (bs ds : List B)
      → Passes m k tid xs bs
      → Passes k n tid cs ds
      → Passes m n tid (xs ++ cs) (bs ++ ds)
  Passes-trans m k n tid xs cs bs ds p q = record {
    acknowledged =
        q.acknowledged ∙ ap (λ zs. zs ++ cs) p.acknowledged ∙ append_assoc m.msg_out xs cs;
    delivered = q.delivered ∙ ap (λ zs. zs ++ ds) p.delivered ∙ append_assoc m.bundles bs ds;
    others = λ j ne. q.others j ne ∙ p.others j ne;
  }
