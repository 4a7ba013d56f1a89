-- ===== src/Routing/Spray/Copies.antt =====
-- algorithm_spray.go: the copies of a bundle that its originator sprays.
use dtn.Prelude.{
  ℕ, suc, ◌+◌, ◌%◌, ◌≤◌, ◌<◌, ◌≡◌, refl, sym, ap, subst, ◌∙◌, List, [], ◌∷◌, ◌++◌, append_assoc,
  append-nil, Option, none, some, true, false, Bool-cases, inl, inr, ltb, if◌then◌else◌, if-elim,
  length, length-append, arith,
}
use mathlib.Core.Option.{some-injective}
use dtn.Prelude.Int.{u64_mod}
use dtn.Bpv7.Endpoint.{EndpointId, eid_eq, eid_eq_refl, eid_eq_sound}
use dtn.Routing.Spray.{
  SprayMetaData, known, remove_first, give_copy, select_senders, sender_for_bundle, report_failure,
}

-- No peer twice.
pub Distinct : List EndpointId → Type 0
Distinct [] = Unit
Distinct (x ∷ xs) = (known x xs ≡ false) × Distinct xs

pub eid_eq_sym : (a b : EndpointId) → eid_eq a b ≡ false → eid_eq b a ≡ false
eid_eq_sym a b h = elim (Bool-cases (eid_eq b a)) [
  | inl e ↦
      let same = eid_eq_sound b a e in
      absurd (
        let clash : eid_eq a a ≡ false = subst (λ x. eid_eq a x ≡ false) same h in
        ground (arith, eid_eq_refl a, clash))
  | inr e ↦ e
]

known-append :
    (x e : EndpointId) (xs : List EndpointId)
    → known x xs ≡ false
    → eid_eq x e ≡ false
    → known x (xs ++ e ∷ []) ≡ false
unfolding known
known-append x e [] h he = ground (arith, he)
known-append x e (y ∷ ys) h he = let rest = known-append x e ys in ground (arith, h, rest, he)

Distinct-append :
    (xs : List EndpointId) (e : EndpointId)
    → Distinct xs
    → known e xs ≡ false
    → Distinct (xs ++ e ∷ [])
unfolding Distinct known
Distinct-append [] e d h = (refl, tt)
Distinct-append (x ∷ xs) e (hx, d) h =
    let other : eid_eq e x ≡ false = ground (arith, h) in
    let others : known e xs ≡ false = ground (arith, h) in
    (known-append x e xs hx (eid_eq_sym e x other), Distinct-append xs e d others)

known-remove :
    (x e : EndpointId) (xs : List EndpointId)
    → known x xs ≡ false
    → known x (remove_first e xs) ≡ false
unfolding known remove_first
known-remove x e [] h = refl
known-remove x e (y ∷ ys) h =
    let other : eid_eq x y ≡ false = ground (arith, h) in
    let others : known x ys ≡ false = ground (arith, h) in
    if-elim (λ l. known x l ≡ false) (eid_eq y e) _ _ (λ _. others)
      (λ _. let rest = known-remove x e ys others in ground (arith, other, rest))

Distinct-remove :
    (e : EndpointId) (xs : List EndpointId) → Distinct xs → Distinct (remove_first e xs)
unfolding Distinct remove_first
Distinct-remove e [] d = tt
Distinct-remove e (x ∷ xs) (hx, d) =
    if-elim Distinct (eid_eq x e) _ _ (λ _. d)
      (λ _. (known-remove x e xs hx, Distinct-remove e xs d))

length-remove :
    (e : EndpointId) (xs : List EndpointId)
    → known e xs ≡ true
    → suc (length (remove_first e xs)) ≡ length xs
unfolding known remove_first
length-remove e [] h = cc
length-remove e (x ∷ xs) h =
    if-elim (λ (l : List EndpointId). suc (length l) ≡ length (x ∷ xs)) (eid_eq x e) _ _ (λ _. refl)
      (λ no_match.
        let rest : known e xs ≡ true =
          let different = eid_eq_sym x e no_match in ground (arith, h, different) in
        ap suc (length-remove e xs rest))

remove_first-unknown :
    (e : EndpointId) (xs : List EndpointId) → known e xs ≡ false → remove_first e xs ≡ xs
unfolding known remove_first
remove_first-unknown e [] h = refl
remove_first-unknown e (x ∷ xs) h =
    let other : eid_eq e x ≡ false = ground (arith, h) in
    let others : known e xs ≡ false = ground (arith, h) in
    if-elim (λ (l : List EndpointId). l ≡ x ∷ xs) (eid_eq x e) _ _
      (λ same. absurd (let differ = eid_eq_sym e x other in ground (arith, same, differ)))
      (λ _. ap (x ∷◌) (remove_first-unknown e xs others))

-- All copies are there: those that are left and those that were given.
pub record IsSprayed (l : ℕ) (m : SprayMetaData) : Type 0 where
  pub conserved : m.remaining_copies + length m.sent ≡ l
  pub own_copy : 1 ≤ m.remaining_copies
  pub distinct : Distinct m.sent

Selects : ℕ → SprayMetaData → List EndpointId × SprayMetaData → Type 0
Selects l m (chosen, m') = IsSprayed l m' × (m'.sent ≡ m.sent ++ chosen)

IsSprayed-selected :
    (l : ℕ) (m : SprayMetaData) (r : List EndpointId × SprayMetaData)
    → Selects l m r
    → IsSprayed l (r.1)
unfolding Selects
IsSprayed-selected l m (chosen, m') (h, _) = h

select_senders-Selects :
    (l : ℕ) (css : List EndpointId) (m : SprayMetaData)
    → IsSprayed l m
    → Selects l m (select_senders css m)
unfolding select_senders Selects give_copy
select_senders-Selects l [] m h = (h, sym (append-nil m.sent))
select_senders-Selects l (cs ∷ css) m h =
    if-elim (Selects l m) (ltb m.remaining_copies 2) _ _ (λ _. (h, sym (append-nil m.sent)))
      (λ enough.
        if-elim (Selects l m) (known cs m.sent) _ _ (λ _. select_senders-Selects l css m h)
          (λ fresh.
            let given : IsSprayed l (give_copy cs m) = record {
              conserved = ground (arith, enough, h.conserved, length-append m.sent (cs ∷ []));
              own_copy = ground (arith, enough);
              distinct = Distinct-append m.sent cs h.distinct fresh;
            } in
            let (h', same) = select_senders-Selects l css (give_copy cs m) given in
            (h', same ∙ append_assoc m.sent (cs ∷ []) _)))

selected_inj :
    {r r' : List EndpointId} {m m' : SprayMetaData}
    → ◌≡◌ {A = List EndpointId × Option SprayMetaData} (r, some m) (r', some m')
    → ◌≡◌ {A = List EndpointId × SprayMetaData} (r, m) (r', m')
selected_inj e = λ i. ((e i).0, some-injective _ _ (ap (λ p. p.1) e) i)

known-middle :
    (e : EndpointId) (before after : List EndpointId) → known e (before ++ e ∷ after) ≡ true
unfolding known
known-middle e [] after = ground (arith, eid_eq_refl e)
known-middle e (x ∷ xs) after = let later = known-middle e xs after in ground (arith, later)

known_at :
    (x e : EndpointId) (before after : List EndpointId)
    → known x (before ++ e ∷ after) ≡ false
    → eid_eq x e ≡ false
unfolding known
known_at x e [] after h = ground (arith, h)
known_at x e (y ∷ ys) after h =
    let rest : known x (ys ++ e ∷ after) ≡ false = ground (arith, h) in known_at x e ys after rest

Distinct-middle :
    (e : EndpointId) (before after : List EndpointId)
    → Distinct (before ++ e ∷ after)
    → known e before ≡ false
unfolding Distinct known
Distinct-middle e [] after d = refl
Distinct-middle e (x ∷ xs) after (hx, d) =
    let different = eid_eq_sym x e (known_at x e xs after hx) in
    let others = Distinct-middle e xs after d in ground (arith, different, others)

remove_first-middle :
    (e : EndpointId) (before after : List EndpointId)
    → known e before ≡ false
    → remove_first e (before ++ e ∷ after) ≡ before ++ after
unfolding known remove_first
remove_first-middle e [] after h = rw (eid_eq_refl e) refl
remove_first-middle e (x ∷ xs) after h =
    let other : eid_eq e x ≡ false = ground (arith, h) in
    let others : known e xs ≡ false = ground (arith, h) in
    rw (eid_eq_sym e x other) (ap (λ l. x ∷ l) (remove_first-middle e xs after others))

sender_for_bundle-Selects :
    (l : ℕ) (css : List EndpointId) (m : SprayMetaData) (chosen : List EndpointId)
    (m' : SprayMetaData)
    → IsSprayed l m
    → sender_for_bundle css (some m) ≡ (chosen, some m')
    → Selects l m (chosen, m')
unfolding sender_for_bundle Selects
sender_for_bundle-Selects l css m chosen m' h =
    if-elim (λ r. r ≡ (chosen, some m') → Selects l m (chosen, m')) (ltb m.remaining_copies 2) _ _
      (λ _ e. subst (Selects l m) (selected_inj e) (h, sym (append-nil m.sent)))
      (λ _ e. subst (Selects l m) (selected_inj e) (select_senders-Selects l css m h))

-- A failure is reported of a peer that got a copy.
report_failure-IsSprayed :
    (l : ℕ) (e : EndpointId) (m m' : SprayMetaData) (before after : List EndpointId)
    → l < u64_mod
    → IsSprayed l m
    → m.sent ≡ before ++ e ∷ after
    → report_failure e (some m) ≡ some m'
    → IsSprayed l m' × (m'.sent ≡ before ++ after)
unfolding report_failure
report_failure-IsSprayed l e m m' before after bound h held eq =
    let given : known e m.sent ≡ true =
      subst (λ es. known e es ≡ true) (sym held) (known-middle e before after) in
    let first : known e before ≡ false =
      Distinct-middle e before after (subst Distinct held h.distinct) in
    let shorter = length-remove e m.sent given in
    let one_back : (m.remaining_copies + 1) % u64_mod ≡ m.remaining_copies + 1 =
      omega (arith, shorter, h.conserved, bound) in
    subst (λ m'. IsSprayed l m' × (m'.sent ≡ before ++ after)) (some-injective _ _ eq)
      (
        record {
          conserved = omega (arith, one_back, shorter, h.conserved);
          own_copy = omega (arith, one_back);
          distinct = Distinct-remove e m.sent h.distinct;
        },
        ap (remove_first e) held ∙ remove_first-middle e before after first,
      )

-- The calls of SenderForBundle and ReportFailure on the entry of a bundle that this node created, with the
-- peers that were given a copy: the chosen senders get one, and one that fails gives it back.
pub data Sprays (l : ℕ) : SprayMetaData → List EndpointId → Type 0 where
  created : Sprays l (record { sent = []; remaining_copies = l }) []
  asked :
      (css : List EndpointId) (m : SprayMetaData) (holders chosen : List EndpointId)
      (m' : SprayMetaData)
      → Sprays l m holders
      → sender_for_bundle css (some m) ≡ (chosen, some m')
      → Sprays l m' (holders ++ chosen)
  failed :
      (e : EndpointId) (m m' : SprayMetaData) (before after : List EndpointId)
      → Sprays l m (before ++ e ∷ after)
      → report_failure e (some m) ≡ some m'
      → Sprays l m' (before ++ after)

-- What is true of the entry and of the peers with a copy.
pub record IsShared (l : ℕ) (m : SprayMetaData) (holders : List EndpointId) : Type 0 where
  pub all_copies : m.remaining_copies + length holders ≡ l
  pub one_kept : 1 ≤ m.remaining_copies
  pub no_peer_twice : Distinct holders
  pub noted : m.sent ≡ holders

Sprays-noted :
    (l : ℕ) (m : SprayMetaData) (holders : List EndpointId)
    → 1 ≤ l
    → l < u64_mod
    → Sprays l m holders
    → IsSprayed l m × (m.sent ≡ holders)
unfolding Distinct Selects
Sprays-noted l _ _ one bound created =
    (record { conserved = omega arith; own_copy = one; distinct = tt }, refl)
Sprays-noted l _ _ one bound (asked css m holders chosen m' run eq) =
    let (h, same) = Sprays-noted l m holders one bound run in
    let (h', more) = sender_for_bundle-Selects l css m chosen m' h eq in
    (h', more ∙ ap (λ es. es ++ chosen) same)
Sprays-noted l _ _ one bound (failed e m m' before after run eq) =
    let (h, same) = Sprays-noted l m (before ++ e ∷ after) one bound run in
    report_failure-IsSprayed l e m m' before after bound h same eq

-- If the node that created a bundle is asked for senders any number of times, each chosen sender gets a copy,
-- and a failure is only reported of a peer that has one, which then has none; and the number of
-- copies is a 64-bit word and not 0: the copies that are left and the peers that have one are
-- always as many as there were copies, the node keeps one, no peer has two, and the entry notes
-- exactly the peers that have one.
pub Sprays-IsShared :
    (l : ℕ) (m : SprayMetaData) (holders : List EndpointId)
    → 1 ≤ l
    → l < u64_mod
    → Sprays l m holders
    → IsShared l m holders
Sprays-IsShared l m holders one bound run =
    let (h, same) = Sprays-noted l m holders one bound run in
    record {
      all_copies = subst (λ es. m.remaining_copies + length es ≡ l) same h.conserved;
      one_kept = h.own_copy;
      no_peer_twice = subst Distinct same h.distinct;
      noted = same;
    }

-- The copies of an entry: those that are left and those that were given.
unfoldable pub copies : Option SprayMetaData → ℕ
copies none = 0
copies (some m) = m.remaining_copies + length m.sent

-- If the copies left are fewer than a 64-bit word can hold, a report of a failure keeps the number of all
-- copies for a peer that got one, and makes one more copy for any other peer.
pub report_failure-copies :
    (e : EndpointId) (m : SprayMetaData)
    → m.remaining_copies + 1 < u64_mod
    → copies (report_failure e (some m))
      ≡ (if known e m.sent then copies (some m) else copies (some m) + 1)
unfolding copies report_failure
report_failure-copies e m bound =
    let one_back : (m.remaining_copies + 1) % u64_mod ≡ m.remaining_copies + 1 = omega arith in
    if-elim (λ n. (m.remaining_copies + 1) % u64_mod + length (remove_first e m.sent) ≡ n)
      (known e m.sent) _ _
      (λ given. let shorter = length-remove e m.sent given in omega (arith, one_back, shorter))
      (λ fresh.
        let same = ap length (remove_first-unknown e m.sent fresh) in omega (arith, one_back, same))
