-- ===== src/Bbc/Interleaving.antt =====
-- Connector.handleIncomingFragment on the fragments of several transmissions, in any order.
use dtn.Prelude.{
  ℕ, ◌≡◌, ◌≢◌, refl, sym, subst, ◌∙◌, List, [], ◌∷◌, ◌++◌, append-nil, Option, none, some, Run, ok,
  err, panic, ◌>>=◌, arith, inl, inr, Bool-cases, Option-cases, ◌==◌, ==_iff, if◌then◌else◌,
}
use dtn.Bbc.Fragment.{Error, Fragment, fail_bit}
use dtn.Bbc.Transmission.{IncomingTransmission, new_incoming, read_fragment}
use dtn.Bbc.Connector.{
  Connector, store, finish, finish_or_fail, handle_new, handle_known, handle_incoming_fragment,
  handle_all,
}

-- The fragments with one transmission ID, and what was reported for it.
unfoldable pub only : ℕ → List Fragment → List Fragment
only tid [] = []
only tid (f ∷ fs) = if f.transmission_id == tid then f ∷ only tid fs else only tid fs

module _ {B : Type 0} where
  unfoldable pub reports_of : ℕ → List (ℕ × B) → List B
  reports_of tid [] = []
  reports_of tid ((k, b) ∷ rs) = if k == tid then b ∷ reports_of tid rs else reports_of tid rs

  reports_of-append :
      (tid k : ℕ) (b : B) (rs : List (ℕ × B))
      → reports_of tid (rs ++ (k, b) ∷ []) ≡ reports_of tid rs ++ (if k == tid then b ∷ [] else [])
  unfolding reports_of
  reports_of-append tid k b [] = ground arith
  reports_of-append tid k b ((j, a) ∷ rs) = ground (arith, reports_of-append tid k b rs)

  -- The two connectors know the same of one transmission.
  pub record Agree (tid : ℕ) (c d : Connector B) : Type 0 where
    pub transmission : c.transmissions tid ≡ d.transmissions tid
    pub reported : reports_of tid c.reports ≡ reports_of tid d.reports

  -- A transmission is kept under its own ID.
  abbrev pub IsKeyed : Connector B → Type 0
  IsKeyed c = (k : ℕ) (t : IncomingTransmission) → c.transmissions k ≡ some t → t.in_id ≡ k

  Agree-refl : (tid : ℕ) (c : Connector B) → Agree tid c c
  Agree-refl tid c = record { transmission = refl; reported = refl }

  Agree-trans : (tid : ℕ) (c d e : Connector B) → Agree tid c d → Agree tid d e → Agree tid c e
  Agree-trans tid c d e a b = record {
    transmission = a.transmission ∙ b.transmission;
    reported = a.reported ∙ b.reported;
  }

  module _ (decode : List ℕ → Option B) where
    finish-Agree :
        (c d : Connector B) (f : Fragment) (t : IncomingTransmission)
        → Agree t.in_id c d
        → Agree t.in_id (finish decode c f t) (finish decode d f t)
    unfolding finish
    finish-Agree c d f t a = elim (Option-cases (decode t.in_payload)) [
      | inl e ↦ record { transmission = ground arith; reported = ground (arith, a.reported) }
      | inr (b, e) ↦ record {
        transmission = ground arith;
        reported = ground (
          arith,
          a.reported,
          reports_of-append t.in_id t.in_id b c.reports,
          reports_of-append t.in_id t.in_id b d.reports,
        );
      }
    ]

    finish-others :
        (tid : ℕ) (c : Connector B) (f : Fragment) (t : IncomingTransmission)
        → t.in_id ≢ tid
        → Agree tid (finish decode c f t) c
    unfolding finish
    finish-others tid c f t ne = elim (Option-cases (decode t.in_payload)) [
      | inl e ↦ record { transmission = ground arith; reported = ground arith }
      | inr (b, e) ↦ record {
        transmission = ground arith;
        reported = ground (
          arith,
          reports_of-append tid t.in_id b c.reports,
          append-nil (reports_of tid c.reports),
        );
      }
    ]

    finish-IsKeyed :
        (c : Connector B) (f : Fragment) (t : IncomingTransmission)
        → IsKeyed c
        → IsKeyed (finish decode c f t)
    unfolding finish
    finish-IsKeyed c f t keyed k t' e = elim (Option-cases (decode t.in_payload)) [
      | inl d ↦ ground (arith, keyed k t')
      | inr (b, d) ↦ ground (arith, keyed k t')
    ]

    -- A fragment that was read leaves the transmission under the fragment's ID.
    Reads : Fragment → Run Error IncomingTransmission → Type 0
    Reads f r = (t : IncomingTransmission) → r ≡ ok t → t.in_id ≡ f.transmission_id

    new_incoming-Reads : (f : Fragment) → Reads f (new_incoming f)
    unfolding new_incoming Reads
    new_incoming-Reads f t e = ground arith

    read_fragment-Reads :
        (t : IncomingTransmission) (f : Fragment)
        → t.in_id ≡ f.transmission_id
        → Reads f (read_fragment t f >>= λ (t', fin). ok t')
    unfolding read_fragment Reads
    read_fragment-Reads t f same t' e = ground arith

    read_Agree :
        (c c' d d' : Connector B) (f : Fragment) (r : Run Error IncomingTransmission)
        → Reads f r
        → Agree f.transmission_id c d
        → Agree f.transmission_id c' d'
        → Agree f.transmission_id (finish_or_fail decode c c' f r) (finish_or_fail decode d d' f r)
    unfolding finish_or_fail Reads
    read_Agree c c' d d' f (ok t) reads a a' =
        let same = reads t refl in
        subst (λ k. Agree k (finish decode c f t) (finish decode d f t)) same
          (finish-Agree c d f t (subst (λ k. Agree k c d) (sym same) a))
    read_Agree c c' d d' f (err e) reads a a' = record {
      transmission = a'.transmission;
      reported = a'.reported;
    }
    read_Agree c c' d d' f panic reads a a' = a

    handle-Agree :
        (c d : Connector B) (f : Fragment)
        → IsKeyed c
        → Agree f.transmission_id c d
        → Agree f.transmission_id
            (handle_incoming_fragment decode c f)
            (handle_incoming_fragment decode d f)
    unfolding handle_incoming_fragment
    handle-Agree c d f keyed a = elim (Bool-cases (fail_bit f)) [
      | inl fails ↦ rw (fails) (record { transmission = a.transmission; reported = a.reported })
      | inr reads ↦ elim (Option-cases (c.transmissions f.transmission_id)) [
        | inl fresh ↦
            rw (reads, fresh, sym a.transmission ∙ fresh)
              (unfold handle_new in read_Agree c c d d f _ (new_incoming-Reads f) a a)
        | inr (t, known) ↦
            let same = keyed f.transmission_id t known in
            rw (reads, known, sym a.transmission ∙ known)
              (unfold handle_known in
                read_Agree c _ d _ f _ (read_fragment-Reads t f same) a
                  (record { transmission = ground arith; reported = a.reported }))
      ]
    ]

    read_others :
        (tid : ℕ) (c c' : Connector B) (f : Fragment) (r : Run Error IncomingTransmission)
        → Reads f r
        → f.transmission_id ≢ tid
        → Agree tid c' c
        → Agree tid (finish_or_fail decode c c' f r) c
    unfolding finish_or_fail Reads
    read_others tid c c' f (ok t) reads ne a =
        finish-others tid c f t (λ e. ne (sym (reads t refl) ∙ e))
    read_others tid c c' f (err e) reads ne a = record {
      transmission = a.transmission;
      reported = a.reported;
    }
    read_others tid c c' f panic reads ne a = Agree-refl tid c

    handle-others :
        (tid : ℕ) (c : Connector B) (f : Fragment)
        → IsKeyed c
        → f.transmission_id ≢ tid
        → Agree tid (handle_incoming_fragment decode c f) c
    unfolding handle_incoming_fragment
    handle-others tid c f keyed ne = elim (Bool-cases (fail_bit f)) [
      | inl fails ↦ rw fails (record { transmission = refl; reported = refl })
      | inr reads ↦ elim (Option-cases (c.transmissions f.transmission_id)) [
        | inl fresh ↦
            rw (reads, fresh)
              (unfold handle_new in
                read_others tid c c f _ (new_incoming-Reads f) ne (Agree-refl tid c))
        | inr (t, known) ↦
            let same = keyed f.transmission_id t known in
            rw (reads, known)
              (unfold handle_known in
                read_others tid c _ f _ (read_fragment-Reads t f same) ne
                  (record { transmission = ground arith; reported = refl }))
      ]
    ]

    read_IsKeyed :
        (c c' : Connector B) (f : Fragment) (r : Run Error IncomingTransmission)
        → IsKeyed c
        → IsKeyed c'
        → IsKeyed (finish_or_fail decode c c' f r)
    unfolding finish_or_fail
    read_IsKeyed c c' f (ok t) keyed keyed' = finish-IsKeyed c f t keyed
    read_IsKeyed c c' f (err e) keyed keyed' = keyed'
    read_IsKeyed c c' f panic keyed keyed' = keyed

    closed_IsKeyed :
        (c : Connector B) (tid : ℕ)
        → IsKeyed c
        → IsKeyed (record c { transmissions = store c.transmissions tid none })
    closed_IsKeyed c tid keyed k t e = ground (arith, keyed k t)

    handle-IsKeyed :
        (c : Connector B) (f : Fragment) → IsKeyed c → IsKeyed (handle_incoming_fragment decode c f)
    unfolding handle_incoming_fragment
    handle-IsKeyed c f keyed = elim (Bool-cases (fail_bit f)) [
      | inl fails ↦ rw fails keyed
      | inr reads ↦ elim (Option-cases (c.transmissions f.transmission_id)) [
        | inl fresh ↦
            rw (reads, fresh) (unfold handle_new in read_IsKeyed c c f (new_incoming f) keyed keyed)
        | inr (t, known) ↦
            rw (reads, known)
              (unfold handle_known in
                read_IsKeyed c (record c { transmissions = store c.transmissions t.in_id none }) f _
                  keyed (closed_IsKeyed c t.in_id keyed))
      ]
    ]

    -- However the fragments of transmissions with different IDs are mixed, what a connector that
    -- keeps transmissions under their own IDs knows of one ID and the bundles that it reports for
    -- it are those that it would have from the fragments of that ID alone, in their order.
    pub handle_all-only :
        (tid : ℕ) (fs : List Fragment) (c d : Connector B)
        → IsKeyed c
        → IsKeyed d
        → Agree tid c d
        → Agree tid (handle_all decode c fs) (handle_all decode d (only tid fs))
    unfolding handle_all only
    handle_all-only tid [] c d keyed keyed' a = a
    handle_all-only tid (f ∷ fs) c d keyed keyed' a = elim (Bool-cases (f.transmission_id == tid)) [
      | inl same ↦
          let e = (==_iff f.transmission_id tid).0 same in
          let step =
            subst
              (λ k.
                Agree k (handle_incoming_fragment decode c f) (handle_incoming_fragment decode d f))
              e (handle-Agree c d f keyed (subst (λ k. Agree k c d) (sym e) a)) in
          rw same
            (handle_all-only tid fs _ _ (handle-IsKeyed c f keyed) (handle-IsKeyed d f keyed') step)
      | inr other ↦
          let ne : f.transmission_id ≢ tid = ground arith in
          rw other (
            handle_all-only tid fs _ d (handle-IsKeyed c f keyed) keyed'
              (Agree-trans tid _ c d (handle-others tid c f keyed ne) a))
    ]
