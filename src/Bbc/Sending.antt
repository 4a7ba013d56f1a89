-- ===== src/Bbc/Sending.antt =====
-- Connector.Send against Connector.handleIncomingFragment: what is sent is what is received.
use dtn.Prelude.{
  ℕ, suc, ◌+◌, ◌-◌, ◌%◌, ◌≤◌, ◌<◌, ◌≡◌, ◌≢◌, refl, sym, ap, ap₂, subst, ◌∙◌, List, [], ◌∷◌, ◌++◌,
  append_assoc, Option, none, some, Bool, true, false, ok, arith, All, inl, inr, Bool-cases, length,
  take, drop, leb, length-take, length-drop, take-append-drop, ◌==◌, ==_iff,
}
use dtn.Prelude.Int.{pos, sub_ℕ}
use dtn.Bbc.Fragment.{
  Fragment, new_fragment, sequence_number, start_bit, end_bit, fail_bit, bytes,
  next_sequence_number, new_fragment-Unpacks,
}
use dtn.Bbc.Transmission.{
  IncomingTransmission, OutgoingTransmission, new_incoming, read_fragment, new_plain_outgoing,
  next_payload, write_fragment,
}
use dtn.Bbc.Connector.{
  Status, sent, send_loop, Connector, finish, handle_new, handle_known, handle_incoming_fragment,
  handle_all,
}

-- The rounds of Send in which nothing is reported to it.
abbrev pub quiet_rounds : List (Option ℕ) → ℕ
quiet_rounds [] = 0
quiet_rounds (none ∷ events) = suc (quiet_rounds events)
quiet_rounds (some tid ∷ events) = quiet_rounds events

-- No failure of this transmission is reported.
abbrev pub NoFailure : ℕ → List (Option ℕ) → Type 0
NoFailure tid [] = Unit
NoFailure tid (none ∷ events) = NoFailure tid events
NoFailure tid (some k ∷ events) = (k ≢ tid) × NoFailure tid events

abbrev outgoing : ℕ → List ℕ → ℕ → Bool → ℕ → OutgoingTransmission
outgoing tid p m start n = record {
  out_id = tid;
  out_payload = p;
  out_finished = false;
  mtu = pos m;
  start = start;
  next_segment_no = n;
}

abbrev incoming : ℕ → List ℕ → Bool → ℕ → IncomingTransmission
incoming tid acc fin n = record {
  in_id = tid;
  in_payload = acc;
  in_finished = fin;
  prev_sequence_no = n;
}

abbrev piece_of : ℕ → ℕ → Bool → Bool → List ℕ → Fragment
piece_of tid n start last piece = new_fragment tid (next_sequence_number n) start last false piece

write_fragment-last :
    (tid : ℕ) (p : List ℕ) (m : ℕ) (start : Bool) (n : ℕ)
    → leb (length p) m ≡ true
    → write_fragment (outgoing tid p m start n)
      ≡ ok (
        record (outgoing tid [] m false (next_sequence_number n)) { out_finished = true },
        piece_of tid n start true p,
        true,
      )
unfolding write_fragment next_payload
write_fragment-last tid p m start n h = rw h

write_fragment-more :
    (tid : ℕ) (p : List ℕ) (m : ℕ) (start : Bool) (n : ℕ)
    → leb (length p) m ≡ false
    → write_fragment (outgoing tid p m start n)
      ≡ ok (
        outgoing tid (drop m p) m false (next_sequence_number n),
        piece_of tid n start false (take m p),
        false,
      )
unfolding write_fragment next_payload
write_fragment-more tid p m start n h = rw h

send_loop-last :
    (tid : ℕ) (p : List ℕ) (m : ℕ) (start : Bool) (n : ℕ) (events : List (Option ℕ))
    → leb (length p) m ≡ true
    → send_loop (outgoing tid p m start n) (none ∷ events)
      ≡ (piece_of tid n start true p ∷ [], sent)
unfolding send_loop
send_loop-last tid p m start n events h = rw (write_fragment-last tid p m start n h, send_loop)

send_loop-more :
    (tid : ℕ) (p : List ℕ) (m : ℕ) (start : Bool) (n : ℕ) (events : List (Option ℕ))
    → leb (length p) m ≡ false
    → let rest = send_loop (outgoing tid (drop m p) m false (next_sequence_number n)) events in
      send_loop (outgoing tid p m start n) (none ∷ events)
      ≡ (piece_of tid n start false (take m p) ∷ rest.0, rest.1)
unfolding send_loop
send_loop-more tid p m start n events h = rw (write_fragment-more tid p m start n h, send_loop)

next_fits :
    (n : ℕ)
    → (next_sequence_number n < 256) × (next_sequence_number n % 32 ≡ next_sequence_number n)
unfolding next_sequence_number
next_fits n = (omega arith, omega arith)

module _ {B : Type 0} (decode : List ℕ → Option B) where
  -- A start fragment of an unknown transmission opens it.
  handle_fresh :
      (c : Connector B) (f : Fragment)
      → fail_bit f ≡ false
      → start_bit f ≡ true
      → c.transmissions f.transmission_id ≡ none
      → handle_incoming_fragment decode c f
        ≡ finish decode c f (incoming f.transmission_id f.payload (end_bit f) (sequence_number f))
  unfolding handle_incoming_fragment handle_new new_incoming
  handle_fresh c f fails starts fresh = rw (fails, fresh) (rw (starts, handle_new))

  -- The next fragment of an open transmission is read into it.
  handle_open :
      (c : Connector B) (f : Fragment) (acc : List ℕ) (n : ℕ)
      → fail_bit f ≡ false
      → start_bit f ≡ false
      → sequence_number f ≡ next_sequence_number n
      → c.transmissions f.transmission_id ≡ some (incoming f.transmission_id acc false n)
      → handle_incoming_fragment decode c f
        ≡ finish decode c f
            (incoming f.transmission_id (acc ++ f.payload) (end_bit f) (sequence_number f))
  unfolding handle_incoming_fragment handle_known read_fragment
  handle_open c f acc n fails starts seq known =
      let same = (==_iff f.transmission_id f.transmission_id).1 refl in
      let expected = (==_iff (sequence_number f) (next_sequence_number n)).1 seq in
      rw (fails, known) (rw (same, expected, starts, handle_known))

  -- What the receiver knows of a transmission of which `acc` has been sent.
  abbrev Expects : Connector B → ℕ → List ℕ → ℕ → Bool → Type 0
  Expects c tid acc n true = (c.transmissions tid ≡ none) × (acc ≡ [])
  Expects c tid acc n false = c.transmissions tid ≡ some (incoming tid acc false n)

  handle_expected :
      (c : Connector B) (f : Fragment) (acc : List ℕ) (n : ℕ) (start : Bool)
      → fail_bit f ≡ false
      → start_bit f ≡ start
      → sequence_number f ≡ next_sequence_number n
      → Expects c f.transmission_id acc n start
      → handle_incoming_fragment decode c f
        ≡ finish decode c f
            (incoming f.transmission_id (acc ++ f.payload) (end_bit f) (sequence_number f))
  handle_expected c f acc n true fails starts seq e =
      handle_fresh c f fails starts e.0
      ∙ ap
          (λ xs.
            finish decode c f
              (incoming f.transmission_id (xs ++ f.payload) (end_bit f) (sequence_number f)))
          (sym e.1)
  handle_expected c f acc n false fails starts seq e = handle_open c f acc n fails starts seq e

  handle_piece :
      (c : Connector B) (tid : ℕ) (acc : List ℕ) (n : ℕ) (start last : Bool) (piece : List ℕ)
      → Expects c tid acc n start
      → handle_incoming_fragment decode c (piece_of tid n start last piece)
        ≡ finish decode c
            (piece_of tid n start last piece)
            (incoming tid (acc ++ piece) last (next_sequence_number n))
  unfolding new_fragment
  handle_piece c tid acc n start last piece e =
      let f = piece_of tid n start last piece in
      let (small, same) = next_fits n in
      let u = new_fragment-Unpacks tid (next_sequence_number n) start last false piece small in
      handle_expected c f acc n start u.fails u.starts (u.sequence ∙ same) e
      ∙ ap₂ (λ fin q. finish decode c f (incoming tid (acc ++ piece) fin q)) u.ends
          (u.sequence ∙ same)

  -- What reading a whole transmission does: its bundle is reported, the transmission is closed, and
  -- nothing else changes.
  pub record Delivered (c c' : Connector B) (tid : ℕ) (b : B) : Type 0 where
    pub reported : c'.reports ≡ c.reports ++ (tid, b) ∷ []
    pub closed : c'.transmissions tid ≡ none
    pub others : (j : ℕ) → j ≢ tid → c'.transmissions j ≡ c.transmissions j
    pub no_failure : c'.fragment_out ≡ c.fragment_out
    pub none_failed : c'.fail_transmission ≡ c.fail_transmission

  -- The parts of Send's outcome: it has returned without an error, the receiver gets the bundle, and
  -- no fragment is longer than the modem allows.
  pub record Arrives (c : Connector B) (m tid : ℕ) (b : B) (r : List Fragment × Status)
      : Type 0 where
    pub done : r.1 ≡ sent
    pub delivered : Delivered c (handle_all decode c r.0) tid b
    pub fits : All (λ f. length (bytes f) ≤ m + 2) r.0

  finish-last :
      (c : Connector B) (f : Fragment) (tid : ℕ) (p : List ℕ) (n : ℕ) (b : B)
      → decode p ≡ some b
      → Delivered c (finish decode c f (incoming tid p true n)) tid b
  unfolding finish
  finish-last c f tid p n b e = rw e (record {
    reported = refl;
    closed = ground arith;
    others = λ j d. ground arith;
    no_failure = refl;
    none_failed = refl;
  })

  Delivered-more :
      (c c' : Connector B) (f : Fragment) (tid : ℕ) (p : List ℕ) (n : ℕ) (b : B)
      → Delivered (finish decode c f (incoming tid p false n)) c' tid b
      → Delivered c c' tid b
  unfolding finish
  Delivered-more c c' f tid p n b d = record {
    reported = d.reported;
    closed = d.closed;
    others = λ j ne. d.others j ne ∙ ground arith;
    no_failure = d.no_failure;
    none_failed = d.none_failed;
  }

  finish-Expects :
      (c : Connector B) (f : Fragment) (tid : ℕ) (p : List ℕ) (n : ℕ)
      → Expects (finish decode c f (incoming tid p false n)) tid p n false
  unfolding finish
  finish-Expects c f tid p n = ground arith

  arrives :
      (events : List (Option ℕ)) (c : Connector B) (tid : ℕ) (p acc : List ℕ) (m n : ℕ)
      (start : Bool) (b : B)
      → 0 < length p
      → 0 < m
      → length p ≤ quiet_rounds events
      → NoFailure tid events
      → Expects c tid acc n start
      → decode (acc ++ p) ≡ some b
      → Arrives c m tid b (send_loop (outgoing tid p m start n) events)
  unfolding send_loop handle_all bytes new_fragment
  arrives [] c tid p acc m n start b ne pos_m rounds quiet e d = absurd (omega arith)
  arrives (some k ∷ events) c tid p acc m n start b ne pos_m rounds quiet e d =
      let other : (k == tid) ≡ false = ground arith in
      rw other (arrives events c tid p acc m n start b ne pos_m rounds quiet.1 e d)
  arrives (none ∷ events) c tid p acc m n start b ne pos_m rounds quiet e d =
      elim (Bool-cases (leb (length p) m)) [
        | inl short ↦ rw (send_loop-last tid p m start n events short) (record {
          done = refl;
          delivered =
              rw (handle_piece c tid acc n start true p e)
                (finish-last c (piece_of tid n start true p) tid (acc ++ p) _ b d);
          fits = (ground arith, tt);
        })
        | inr long ↦
            let f = piece_of tid n start false (take m p) in
            let c' =
              finish decode c f (incoming tid (acc ++ take m p) false (next_sequence_number n)) in
            let split : acc ++ take m p ++ drop m p ≡ acc ++ p =
              append_assoc acc (take m p) (drop m p) ∙ ap (◌++◌ acc) (take-append-drop m p) in
            let ih =
              arrives events c' tid (drop m p) (acc ++ take m p) m (next_sequence_number n) false b
                (ground (arith, length-drop m p)) pos_m (ground (arith, length-drop m p)) quiet
                (finish-Expects c f tid (acc ++ take m p) (next_sequence_number n))
                (ap decode split ∙ d) in
            rw (send_loop-more tid p m start n events long) (record {
              done = ih.done;
              delivered =
                  subst
                    (λ k.
                      Delivered c
                        (handle_all decode k
                          (send_loop (outgoing tid (drop m p) m false (next_sequence_number n))
                            events).0)
                        tid b)
                    (sym (handle_piece c tid acc n start false (take m p) e))
                    (Delivered-more c _ f tid (acc ++ take m p) (next_sequence_number n) b
                      ih.delivered);
              fits = (ground (arith, length-take m p), ih.fits);
            })
      ]

  -- If a payload that is not empty is sent with an MTU of at least 3, no failure of its transmission
  -- is reported, and Send gets as many rounds as the payload has bytes, then Send returns without an
  -- error, no fragment is longer than the MTU, and a receiver with no open transmission of this ID
  -- reports exactly the bundle that the payload decodes to and is otherwise as before.
  pub send-Arrives :
      (events : List (Option ℕ)) (c : Connector B) (tid : ℕ) (p : List ℕ) (mtu : ℕ) (b : B)
      → 0 < length p
      → 3 ≤ mtu
      → length p ≤ quiet_rounds events
      → NoFailure tid events
      → c.transmissions tid ≡ none
      → decode p ≡ some b
      → Arrives c (mtu - 2) tid b (send_loop (new_plain_outgoing tid p mtu) events)
  unfolding new_plain_outgoing
  send-Arrives events c tid [] mtu b ne big rounds quiet fresh d = absurd (omega arith)
  send-Arrives events c tid (x ∷ p) mtu b ne big rounds quiet fresh d =
      let m : sub_ℕ mtu 2 ≡ pos (mtu - 2) = ground arith in
      rw m (
        arrives events c tid (x ∷ p) [] (mtu - 2) 0 true b ne (omega arith) rounds quiet
          (fresh, refl) d)
