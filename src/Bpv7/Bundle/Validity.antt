-- ===== src/Bpv7/Bundle/Validity.antt =====
-- Bundle.CheckValid against the rules that it is there to check.
use mathlib.Core.List.{Mem, Nodup, Nodup-cons, Nodup-nil, append-eq-nil_iff}
use dtn.Prelude.{
  ℕ, ◌≡◌, refl, ap, ◌∙◌, ◌↔◌, List, [], ◌∷◌, ◌++◌, map, Bool, true, false, not, ◌&&◌, inl, inr,
  arith, All, Bool-cases, ==_iff, if◌then◌else◌, ok, >>=-eq-ok,
}
use dtn.Bpv7.Errors.{
  Result, duplicate_number, duplicate_type, lifetime_exceeded, no_age_block, last_not_payload,
}
use dtn.Bpv7.Flags.{has, status_report_flag}
use dtn.Bpv7.Time.{is_zero_time}
use dtn.Bpv7.Block.{CanonicalBlock, payload_code, bundle_age_code, type_code, check_canonical}
use dtn.Bpv7.Primary.{check_primary}
use dtn.Bpv7.Bundle.{
  Bundle, contains, numbers, has_extension_block, is_lifetime_exceeded, check_canonicals,
  check_report_flags, check_unique, last_type, no_reports, check_present, check_rest, check_valid,
}
use dtn.Bpv7.Bundle.Numbers.{Mem_of_contains, contains_of_Mem}

abbrev pub types : List CanonicalBlock → List ℕ
types = map type_code

-- No element of the list has been seen.
abbrev Unseen : List ℕ → List ℕ → Type 0
Unseen seen xs = All (λ x. contains seen x ≡ false) xs

Unseen-cons :
    (n : ℕ) (seen xs : List ℕ) → Unseen (n ∷ seen) xs ↔ ((contains xs n ≡ false) × Unseen seen xs)
unfolding contains
Unseen-cons n seen [] = (λ h. (refl, tt), λ h. tt)
Unseen-cons n seen (x ∷ xs) =
    let ih = Unseen-cons n seen xs in
    (
      λ h. let (a, b) = ih.0 h.1 in (ground arith, (ground arith, b)),
      λ h. (ground arith, ih.1 (ground arith, h.1.1)),
    )

Unseen-nil : (xs : List ℕ) → Unseen [] xs
unfolding contains
Unseen-nil [] = tt
Unseen-nil (x ∷ xs) = (refl, Unseen-nil xs)

pub not_contains_iff : (xs : List ℕ) (n : ℕ) → (contains xs n ≡ false) ↔ (¬ Mem n xs)
not_contains_iff xs n = (
  λ h m. ground (arith, contains_of_Mem xs n m),
  λ h. elim (Bool-cases (contains xs n)) [
    | inl e ↦ absurd (h (Mem_of_contains xs n e))
    | inr e ↦ e
  ],
)

abbrev Fresh : List ℕ → List ℕ → Type 0
Fresh seen xs = Unseen seen xs × Nodup xs

Fresh-cons :
    (n : ℕ) (seen xs : List ℕ)
    → Fresh seen (n ∷ xs) ↔ ((contains seen n ≡ false) × Fresh (n ∷ seen) xs)
Fresh-cons n seen xs = (
  λ h.
      let d = Nodup-cons.0 h.1 in
      (h.0.0, (((Unseen-cons n seen xs).1 ((not_contains_iff xs n).1 d.0, h.0.1)), d.1)),
  λ h.
      let u = (Unseen-cons n seen xs).0 h.1.0 in
      ((h.0, u.1), Nodup-cons.1 ((not_contains_iff xs n).0 u.0, h.1.1)),
)

if_nil_iff : {A : Type 0} (t : Bool) (x : A) → ((if t then x ∷ [] else []) ≡ []) ↔ (t ≡ false)
if_nil_iff t x = (λ h. ground arith, λ h. rw h)

if_else_nil : {A : Type 0} {t : Bool} (x : A) → (if t then [] else x ∷ []) ≡ [] → t ≡ true
if_else_nil {t} x h = ground arith

guarded : (a c : Bool) → (a && not c) ≡ false → a ≡ true → c ≡ true
guarded a c h e = ground arith

check_unique_iff :
    (ns ts : List ℕ) (cbs : List CanonicalBlock)
    → (check_unique ns ts cbs ≡ []) ↔ (Fresh ns (numbers cbs) × Fresh ts (types cbs))
unfolding check_unique
check_unique_iff ns ts [] = (λ h. ((tt, Nodup-nil), (tt, Nodup-nil)), λ h. refl)
check_unique_iff ns ts (cb ∷ cbs) =
    let ih = check_unique_iff (cb.block_number ∷ ns) (type_code cb ∷ ts) cbs in
    let fn = Fresh-cons cb.block_number ns (numbers cbs) in
    let ft = Fresh-cons (type_code cb) ts (types cbs) in
    let an = if_nil_iff (contains ns cb.block_number) (duplicate_number cb.block_number) in
    let at = if_nil_iff (contains ts (type_code cb)) (duplicate_type (type_code cb)) in
    (
      λ h.
          let (h0, h') = append-eq-nil_iff.0 h in
          let (h1, h2) = append-eq-nil_iff.0 h' in
          let (n, t) = ih.0 h2 in (fn.1 (an.0 h0, n), ft.1 (at.0 h1, t)),
      λ (n, t).
          let (n0, n1) = fn.0 n in
          let (t0, t1) = ft.0 t in
          append-eq-nil_iff.1 (an.1 n0, append-eq-nil_iff.1 (at.1 t0, ih.1 (n1, t1))),
    )

check_canonicals_iff :
    (cbs : List CanonicalBlock)
    → (check_canonicals cbs ≡ []) ↔ All (λ cb. check_canonical cb ≡ []) cbs
unfolding check_canonicals
check_canonicals_iff [] = (λ h. tt, λ h. refl)
check_canonicals_iff (cb ∷ cbs) =
    let ih = check_canonicals_iff cbs in
    (
      λ h. let (a, b) = append-eq-nil_iff.0 h in (a, ih.0 b),
      λ (a, b). append-eq-nil_iff.1 (a, ih.1 b),
    )

abbrev AsksNoReport : CanonicalBlock → Type 0
AsksNoReport cb = has cb.block_control_flags status_report_flag ≡ false

check_report_flags_iff :
    (cbs : List CanonicalBlock) → (check_report_flags cbs ≡ []) ↔ All AsksNoReport cbs
unfolding check_report_flags
check_report_flags_iff [] = (λ h. tt, λ h. refl)
check_report_flags_iff (cb ∷ cbs) =
    let ih = check_report_flags_iff cbs in
    (
      λ h. let (a, b) = append-eq-nil_iff.0 h in ((if_nil_iff _ _).0 a, ih.0 b),
      λ (a, b). append-eq-nil_iff.1 ((if_nil_iff _ _).1 a, ih.1 b),
    )

-- The last of a list of blocks is a payload block.
abbrev pub EndsInPayload : List CanonicalBlock → Type 0
EndsInPayload cbs =
    (front : List CanonicalBlock) × (p : CanonicalBlock) × (cbs ≡ front ++ p ∷ [])
    × (type_code p ≡ payload_code)

last_type_ends :
    (cb : CanonicalBlock) (cbs : List CanonicalBlock)
    → last_type cb cbs ≡ payload_code
    → EndsInPayload (cb ∷ cbs)
unfolding last_type
last_type_ends cb [] h = ([], cb, refl, h)
last_type_ends cb (c ∷ cs) h =
    let (front, p, e, t) = last_type_ends c cs h in (cb ∷ front, p, cc, t)

last_type-append :
    (cb : CanonicalBlock) (front : List CanonicalBlock) (p : CanonicalBlock)
    → last_type cb (front ++ p ∷ []) ≡ type_code p
unfolding last_type
last_type-append cb [] p = refl
last_type-append cb (c ∷ cs) p = last_type-append c cs p

ends_last_type :
    (cb : CanonicalBlock) (cbs front : List CanonicalBlock) (p : CanonicalBlock)
    → cb ∷ cbs ≡ front ++ p ∷ []
    → last_type cb cbs ≡ type_code p
unfolding last_type
ends_last_type cb cbs [] p e =
    let rest : cbs ≡ [] = cc in let same : cb ≡ p = cc in rw rest (ap type_code same)
ends_last_type cb cbs (c ∷ cs) p e =
    let rest : cbs ≡ cs ++ p ∷ [] = cc in rw rest (last_type-append cb cs p)

-- The rules on the canonical blocks `cbs` of a bundle, at a time.
pub record Rules (now : ℕ) (b : Bundle) (cbs : List CanonicalBlock) : Type 0 where
  pub no_reports_asked : no_reports b.primary_block ≡ true → All AsksNoReport cbs
  pub numbers_distinct : Nodup (numbers cbs)
  pub types_distinct : Nodup (types cbs)
  pub payload_last : EndsInPayload cbs
  pub age_known :
      is_zero_time b.primary_block.creation_timestamp ≡ true
      → has_extension_block b bundle_age_code ≡ true
  pub alive : is_lifetime_exceeded now b ≡ ok false

ok_injective : {A : Type 0} {x y : A} → ◌≡◌ {A = Result A} (ok x) (ok y) → x ≡ y
ok_injective h = cc

not_nil : (front : List CanonicalBlock) (p : CanonicalBlock) → [] ≡ front ++ p ∷ [] → ⊥
not_nil [] p e = cc
not_nil (c ∷ cs) p e = cc

module _ (now : ℕ) (b : Bundle) where
  check_rest_sound : (cbs : List CanonicalBlock) → check_rest now b cbs ≡ ok [] → Rules now b cbs
  unfolding check_rest
  check_rest_sound [] h = absurd (cc)
  check_rest_sound (cb ∷ cbs) h =
      let (exceeded, he, h') = >>=-eq-ok (is_lifetime_exceeded now b) _ h in
      let reports = if no_reports b.primary_block then check_report_flags (cb ∷ cbs) else [] in
      let (h0, r0) = (append-eq-nil_iff {p = reports}).0 (ok_injective h') in
      let (h1, r1) = append-eq-nil_iff.0 r0 in
      let (h2, r2) = append-eq-nil_iff.0 r1 in
      let (h3, h4) = append-eq-nil_iff.0 r2 in
      let (n, t) = (check_unique_iff [] [] (cb ∷ cbs)).0 h1 in
      record {
        no_reports_asked = λ e. (check_report_flags_iff (cb ∷ cbs)).0 (rw e at h0);
        numbers_distinct = n.1;
        types_distinct = t.1;
        payload_last =
            last_type_ends cb cbs
              ((==_iff _ payload_code).0 (if_else_nil (last_not_payload (last_type cb cbs)) h2));
        age_known = λ e. guarded _ _ ((if_nil_iff _ no_age_block).0 h3) e;
        alive = rw he (ap ok ((if_nil_iff exceeded lifetime_exceeded).0 h4));
      }

  check_rest_complete : (cbs : List CanonicalBlock) → Rules now b cbs → check_rest now b cbs ≡ ok []
  unfolding check_rest
  check_rest_complete [] r = let (front, p, e, t) = r.payload_last in absurd (not_nil front p e)
  check_rest_complete (cb ∷ cbs) r =
      let (front, p, e, t) = r.payload_last in
      let last : last_type cb cbs ≡ payload_code = ends_last_type cb cbs front p e ∙ t in
      let unique : check_unique [] [] (cb ∷ cbs) ≡ [] = (check_unique_iff [] [] (cb ∷ cbs)).1 (
        (Unseen-nil (numbers (cb ∷ cbs)), r.numbers_distinct),
        (Unseen-nil (types (cb ∷ cbs)), r.types_distinct),
      ) in
      let reports : (if no_reports b.primary_block then check_report_flags (cb ∷ cbs) else [])
          ≡ [] =
        elim (Bool-cases (no_reports b.primary_block)) [
          | inl asked ↦ rw asked ((check_report_flags_iff (cb ∷ cbs)).1 (r.no_reports_asked asked))
          | inr quiet ↦ rw quiet
        ] in
      let aged : (is_zero_time b.primary_block.creation_timestamp
            && not (has_extension_block b bundle_age_code))
          ≡ false =
        ground (arith, r.age_known) in
      rw (check_present, r.alive, reports, unique, last, aged)

-- CheckValid accepts a bundle, and then returns no error, exactly if its primary block and each of
-- its canonical blocks are valid, no block of an anonymous or administrative bundle asks for a
-- report, the block numbers and the block types are distinct, the last block is a payload block, a
-- bundle without a creation time has an age block, and its lifetime is not over.
pub check_valid_iff :
    (now : ℕ) (b : Bundle)
    → (check_valid now b ≡ ok []) ↔ (
        (check_primary b.primary_block ≡ [])
        × All (λ cb. check_canonical cb ≡ []) b.canonical_blocks
        × Rules now b b.canonical_blocks)
unfolding check_valid
check_valid_iff now b = (
  λ h.
      let (rest, hr, h') = >>=-eq-ok (check_rest now b b.canonical_blocks) _ h in
      let (h0, r0) = append-eq-nil_iff.0 (ok_injective h') in
      let (h1, h2) = append-eq-nil_iff.0 r0 in
      (
        h0,
        (check_canonicals_iff b.canonical_blocks).0 h1,
        check_rest_sound now b b.canonical_blocks (rw hr (ap ok h2)),
      ),
  λ (hp, hc, r).
      let hr = check_rest_complete now b b.canonical_blocks r in
      let cs = (check_canonicals_iff b.canonical_blocks).1 hc in rw (hr, hp, cs),
)
