-- ===== src/Tcpcl/Messages/Accepted/Endings.antt =====
-- pkg/cla/tcpclv4/internal/msgs: how the readers end on any octets.
use dtn.Prelude.{
  ℕ, zero, suc, ◌+◌, ◌*◌, ◌^◌, ◌<◌, ◌≤◌, ◌≡◌, refl, subst, List, [], ◌∷◌, Bool, true, false, ok,
  err, panic, guard, ◌>>=◌, length, take, drop, leb, leb→le, ◌==◌, All, length-take, length-drop,
  Bool-cases, inl, inr, arith,
}
use dtn.Tcpcl.Words.{ReadError, Result, get_uint, read_bytes, read_uint}
use dtn.Tcpcl.Messages.Reading.{read_header}

abbrev pub IsByte : ℕ → Type 0
IsByte b = b < 256

-- What holds of a result, and of a panic.
unfoldable pub Ends : {A : Type 0} → Type 0 → (A → Type 0) → Result A → Type 0
Ends Q P (ok a) = P a
Ends Q P (err e) = Unit
Ends Q P panic = Q

All-take : (n : ℕ) (bs : List ℕ) → All IsByte bs → All IsByte (take n bs)
All-take zero bs h = tt
All-take (suc n) [] h = tt
All-take (suc n) (b ∷ bs) (hb, h) = (hb, All-take n bs h)

All-drop : (n : ℕ) (bs : List ℕ) → All IsByte bs → All IsByte (drop n bs)
All-drop zero bs h = h
All-drop (suc n) [] h = tt
All-drop (suc n) (b ∷ bs) (hb, h) = All-drop n bs h

get_uint-bound :
    (bs : List ℕ) (acc k : ℕ)
    → All IsByte bs
    → acc < 256 ^ k
    → get_uint acc bs < 256 ^ (length bs + k)
unfolding get_uint
get_uint-bound [] acc k h ha = let e : 0 + k ≡ k = omega arith in rw e ha
get_uint-bound (b ∷ bs) acc k (hb, h) ha =
    let step = get_uint-bound bs (acc * 256 + b) (suc k) h (omega arith) in
    let e : suc (length bs) + k ≡ length bs + suc k = omega arith in rw e step

-- At most so many octets.
unfoldable pub IsInput : ℕ → List ℕ → Type 0
IsInput n bytes = (length bytes ≤ n) × All IsByte bytes

module _ (Q : Type 0) where
  pub Ends-bind :
      {A B : Type 0} (P : A → Type 0) (R : B → Type 0) (x : Result A) (k : A → Result B)
      → Ends Q P x
      → ((a : A) → P a → Ends Q R (k a))
      → Ends Q R (x >>= k)
  unfolding Ends
  Ends-bind P R (ok a) k h next = next a h
  Ends-bind P R (err e) k h next = tt
  Ends-bind P R panic k h next = h

  pub Ends-guard :
      {B : Type 0} (R : B → Type 0) (t : Bool) (e : ReadError) (k : Result B)
      → (t ≡ true → Ends Q R k)
      → Ends Q R (guard t e >>= λ _. k)
  unfolding Ends
  Ends-guard R true e k next = next refl
  Ends-guard R false e k next = tt

  pub Ends-mono :
      {A : Type 0} (P R : A → Type 0) (x : Result A)
      → ((a : A) → P a → R a)
      → Ends Q P x
      → Ends Q R x
  unfolding Ends
  Ends-mono P R (ok a) f h = f a h
  Ends-mono P R (err e) f h = tt
  Ends-mono P R panic f h = h

  pub bytes-Ends :
      (k n : ℕ) (bytes : List ℕ)
      → IsInput (k + n) bytes
      → Ends Q (λ (v, r). (length v ≡ k) × (All IsByte v × IsInput n r)) (read_bytes k bytes)
  unfolding read_bytes Ends IsInput
  bytes-Ends k n bytes (hn, h) = elim (Bool-cases (leb k (length bytes))) [
    | inl e ↦
        let fits = leb→le k (length bytes) e in
        rw e (
          omega (arith, length-take k bytes),
          (All-take k bytes h, (omega (arith, length-drop k bytes), All-drop k bytes h)),
        )
    | inr e ↦ rw e tt
  ]

  pub uint-Ends :
      (w n : ℕ) (bytes : List ℕ)
      → IsInput (w + n) bytes
      → Ends Q (λ (v, r). (v < 256 ^ w) × IsInput n r) (read_uint w bytes)
  unfolding read_uint Ends
  uint-Ends w n bytes h =
      Ends-bind _ _ (read_bytes w bytes) _ (bytes-Ends w n bytes h) (λ (v, r) (size, (all, left)).
        let bound = get_uint-bound v 0 0 all (omega arith) in
        let e : length v + 0 ≡ w = omega (arith, size) in
        (subst (λ d. get_uint 0 v < 256 ^ d) e bound, left))

  -- A reader that reads what its input has, from an input of at most n octets.
  pub word-Ends :
      {B : Type 0} (R : B → Type 0) (w n : ℕ) (bytes : List ℕ) (k : ℕ × List ℕ → Result B)
      → IsInput n bytes
      → ((v : ℕ) (r : List ℕ) → v < 256 ^ w → IsInput n r → Ends Q R (k (v, r)))
      → Ends Q R (read_uint w bytes >>= k)
  unfolding IsInput
  word-Ends R w n bytes k (hn, h) next =
      Ends-bind _ R (read_uint w bytes) k (uint-Ends w n bytes (omega arith, h))
        (λ (v, r) (hv, left). next v r hv left)

  pub header-Ends :
      {B : Type 0} (R : B → Type 0) (c n : ℕ) (bytes : List ℕ) (k : List ℕ → Result B)
      → IsInput (suc n) bytes
      → ((r : List ℕ) → IsInput n r → Ends Q R (k r))
      → Ends Q R (read_header c bytes >>= k)
  unfolding read_header IsInput Ends
  header-Ends R c n bytes k (hn, h) next =
      Ends-bind (IsInput n) R (read_header c bytes) k
        (Ends-bind _ _ (read_uint 1 bytes) _ (uint-Ends 1 n bytes (omega arith, h))
          (λ (v, r) (hv, left). Ends-guard _ (v == c) _ _ (λ _. left)))
        next
