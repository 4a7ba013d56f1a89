-- ===== src/Bpv7/Uri/RoundTrip.antt =====
-- endpoint.go, endpoint_dtn.go and endpoint_ipn.go: an endpoint is read back from its text.
use dtn.Prelude.{
  ℕ, zero, suc, ◌+◌, ◌*◌, ◌-◌, ◌/◌, ◌%◌, ◌^◌, ◌<◌, ◌≤◌, ◌≡◌, refl, sym, subst, List, [], ◌∷◌, ◌++◌,
  Option, none, some, Bool, true, false, ◌&&◌, ltb, ◌==◌, if◌then◌else◌, bytes_eq, bytes_eq_refl,
  Bool-cases, inl, inr, ◌⊎◌, All, All-append, take-append, arith, append-nil, ==_iff,
}
use mathlib.Core.Option
use mathlib.Core.Option.{bind}
use dtn.Prelude.Int.{u64_mod}
use dtn.Bpv7.Endpoint.{
  DtnEndpoint, IpnEndpoint, EndpointType, dtn_endpoint, ipn_endpoint, none_ssp, is_name_char,
  match_name, name_not_empty, no_newline, match_ssp, parse_dtn_ssp, dtn_ssp, check_endpoint,
}
use dtn.Bpv7.Uri.{
  decimal_digits, decimal, decimal_value, parse_uint, is_digit, span_digits, match_numbers,
  ipn_scheme, dtn_scheme, has_prefix, if_valid, new_dtn_endpoint, new_ipn_endpoint, is_alnum,
  split_scheme, is_text, new_endpoint_id, endpoint_type_string,
}

-- A character that a node name may have: a digit, a letter, or one of "_-.".
abbrev IsNameChar : ℕ → Type 0
IsNameChar c =
    ((b'0' ≤ c) × (c ≤ b'9'))
    ⊎ (((b'A' ≤ c) × (c ≤ b'Z'))
        ⊎ (((b'a' ≤ c) × (c ≤ b'z')) ⊎ ((c ≡ b'_') ⊎ ((c ≡ b'-') ⊎ (c ≡ b'.')))))

-- A node name, which is not empty, and the rest of the text, in one line.
pub record HasName (name demux : List ℕ) : Type 0 where
  pub initial : ℕ
  pub further : List ℕ
  pub not_empty : name ≡ initial ∷ further
  pub allowed : All IsNameChar name
  pub one_line : All (λ c. ¬ (c ≡ 10)) demux

-- The endpoints that have a URI: "dtn:none", which has no parts; a node name with a demux; and two
-- numbers that are positive words.
abbrev pub IsUri : EndpointType → Type 0
IsUri (dtn_endpoint e) =
    ((e.is_dtn_none ≡ true) × (e.node_name ≡ []) × (e.demux ≡ []))
    ⊎ ((e.is_dtn_none ≡ false) × HasName e.node_name e.demux)
IsUri (ipn_endpoint e) = (0 < e.node) × (0 < e.service) × (e.node < u64_mod) × (e.service < u64_mod)

allowed_lem : (c : ℕ) → IsNameChar c → (is_name_char c ≡ true) × ((c == b'/') ≡ false)
unfolding is_name_char
allowed_lem c (inl h) = (ground (arith, h.0, h.1), ground (arith, h.0, h.1))
allowed_lem c (inr (inl h)) = (ground (arith, h.0, h.1), ground (arith, h.0, h.1))
allowed_lem c (inr (inr (inl h))) = (ground (arith, h.0, h.1), ground (arith, h.0, h.1))
allowed_lem c (inr (inr (inr (inl h)))) = (ground (arith, h), ground (arith, h))
allowed_lem c (inr (inr (inr (inr (inl h))))) = (ground (arith, h), ground (arith, h))
allowed_lem c (inr (inr (inr (inr (inr h))))) = (ground (arith, h), ground (arith, h))

match_name-append :
    (name demux : List ℕ)
    → All IsNameChar name
    → match_name (name ++ b'/' ∷ demux) ≡ some (name, demux)
unfolding match_name
match_name-append [] demux h = refl
match_name-append (c ∷ cs) demux (hc, h) =
    let (allowed, other) = allowed_lem c hc in
    rw (other, allowed, match_name-append cs demux h) refl

one_line_lem : (demux : List ℕ) → All (λ c. ¬ (c ≡ 10)) demux → no_newline demux ≡ true
unfolding no_newline
one_line_lem [] h = refl
one_line_lem (c ∷ cs) (hc, h) =
    let rest = one_line_lem cs h in
    elim (Bool-cases (c == 10)) [
      | inl e ↦ absurd (hc ((==_iff c 10).0 e))
      | inr e ↦ rw (e, rest) refl
    ]

-- The parser reads the parts from the text that String writes.
parse_dtn_ssp-dtn_ssp :
    (e : DtnEndpoint)
    → HasName e.node_name e.demux
    → parse_dtn_ssp (dtn_ssp e) ≡ some (e.node_name, e.demux, false)
unfolding parse_dtn_ssp dtn_ssp match_ssp bytes_eq bind name_not_empty
parse_dtn_ssp-dtn_ssp e h =
    let matched = match_name-append e.node_name e.demux h.allowed in
    rw matched (rw h.not_empty (rw (one_line_lem e.demux h.one_line) refl))

decimal_value-append :
    (acc : ℕ) (ds : List ℕ) (d : ℕ)
    → decimal_value acc (ds ++ d ∷ []) ≡ decimal_value acc ds * 10 + (d - b'0')
unfolding decimal_value
decimal_value-append acc [] d = refl
decimal_value-append acc (c ∷ ds) d = decimal_value-append (acc * 10 + (c - b'0')) ds d

decimal_value-digits : (fuel n : ℕ) → n < 10 ^ fuel → decimal_value 0 (decimal_digits fuel n) ≡ n
unfolding decimal_value decimal_digits
decimal_value-digits zero n h = omega arith
decimal_value-digits (suc fuel) n h = elim (Bool-cases (ltb n 10)) [
  | inl e ↦ rw e (omega arith)
  | inr e ↦
      let high = decimal_value-digits fuel (n / 10) (omega arith) in
      let all = decimal_value-append 0 (decimal_digits fuel (n / 10)) (b'0' + n % 10) in
      rw e (omega (arith, high, all))
]

IsDigits : List ℕ → Type 0
IsDigits ds = All (λ d. is_digit d ≡ true) ds

span-append :
    (ds : List ℕ) (c : ℕ) (cs : List ℕ)
    → IsDigits ds
    → is_digit c ≡ false
    → span_digits (ds ++ c ∷ cs) ≡ (ds, c ∷ cs)
unfolding span_digits IsDigits
span-append [] c cs h e = rw e refl
span-append (d ∷ ds) c cs (hd, h) e = rw (hd, span-append ds c cs h e) refl

span-digits : (ds : List ℕ) → IsDigits ds → span_digits ds ≡ (ds, [])
unfolding span_digits IsDigits
span-digits [] h = refl
span-digits (d ∷ ds) (hd, h) = rw (hd, span-digits ds h) refl

IsDigits-append : (ds es : List ℕ) → IsDigits ds → IsDigits es → IsDigits (ds ++ es)
unfolding IsDigits
IsDigits-append ds es = All-append (λ d. is_digit d ≡ true) ds es

decimal-IsDigits : (fuel n : ℕ) → IsDigits (decimal_digits fuel n)
unfolding IsDigits decimal_digits
decimal-IsDigits zero n = tt
decimal-IsDigits (suc fuel) n = elim (Bool-cases (ltb n 10)) [
  | inl e ↦ rw e (ground (arith, e), tt)
  | inr e ↦ rw e (
      IsDigits-append (decimal_digits fuel (n / 10)) ((b'0' + n % 10) ∷ [])
        (decimal-IsDigits fuel (n / 10)) (ground arith, tt))
]

append-cons : (xs : List ℕ) (x : ℕ) → (y : ℕ) × (ys : List ℕ) × (xs ++ x ∷ [] ≡ y ∷ ys)
append-cons [] x = (x, [], refl)
append-cons (y ∷ ys) x = (y, ys ++ x ∷ [], refl)

-- A number has a first digit.
decimal-cons : (fuel n : ℕ) → (d : ℕ) × (ds : List ℕ) × (decimal_digits (suc fuel) n ≡ d ∷ ds)
unfolding decimal_digits
decimal-cons fuel n = elim (Bool-cases (ltb n 10)) [
  | inl e ↦ (b'0' + n, [], rw e refl)
  | inr e ↦
      let (d, ds, high) = append-cons (decimal_digits fuel (n / 10)) (b'0' + n % 10) in
      (d, ds, rw e high)
]

decimal-word : (n : ℕ) → n < u64_mod → parse_uint (decimal n) ≡ some n
unfolding parse_uint
decimal-word n h =
    let value = decimal_value-digits 20 n (omega arith) in
    let small : ltb n u64_mod ≡ true = ground arith in rw (value, small) refl

match_numbers-decimal :
    (n s : ℕ) → match_numbers (decimal n ++ b'.' ∷ decimal s) ≡ some (decimal n, decimal s)
unfolding match_numbers
match_numbers-decimal n s =
    let (d, ds, first) = decimal-cons 19 n in
    let (e, es, second) = decimal-cons 19 s in
    rw (span-append (decimal n) b'.' (decimal s) (decimal-IsDigits 20 n) refl, first)
      (rw (span-digits (decimal s) (decimal-IsDigits 20 s), second) refl)

has_prefix-append : (prefix text : List ℕ) → has_prefix prefix (prefix ++ text) ≡ true
unfolding has_prefix
has_prefix-append prefix text = rw (take-append prefix text) (bytes_eq_refl prefix)

if_valid_back : (e : EndpointType) → check_endpoint (some e) ≡ [] → if_valid e ≡ some e
unfolding if_valid
if_valid_back e h = rw h refl

ipn_back :
    (e : IpnEndpoint)
    → IsUri (ipn_endpoint e)
    → new_ipn_endpoint (endpoint_type_string (ipn_endpoint e)) ≡ some (ipn_endpoint e)
unfolding new_ipn_endpoint endpoint_type_string if_valid check_endpoint bind
ipn_back e (hn, hs, hn', hs') =
    let numbers = decimal e.node ++ b'.' ∷ decimal e.service in
    let positive : ltb e.node 1 ≡ false = ground arith in
    let positive' : ltb e.service 1 ≡ false = ground arith in
    let valid : check_endpoint (some (ipn_endpoint e)) ≡ [] = rw (positive, positive') refl in
    rw (has_prefix-append (ipn_scheme ++ b':' ∷ []) numbers, match_numbers-decimal e.node e.service)
      (rw (decimal-word e.node hn')
        (rw (decimal-word e.service hs') (if_valid_back (ipn_endpoint e) valid)))

parse_none : parse_dtn_ssp none_ssp ≡ some ([], [], true)
unfolding parse_dtn_ssp
parse_none = rw (bytes_eq_refl none_ssp) refl

parts_back :
    (name path : List ℕ)
    → parse_dtn_ssp (b'/' ∷ b'/' ∷ name ++ (b'/' ∷ path)) ≡ some (name, path, false)
    → (let e : DtnEndpoint = record { node_name = name; demux = path; is_dtn_none = false } in
        new_dtn_endpoint (endpoint_type_string (dtn_endpoint e)) ≡ some (dtn_endpoint e))
unfolding new_dtn_endpoint endpoint_type_string if_valid check_endpoint bind dtn_ssp
parts_back name path parsed =
    let ssp = b'/' ∷ b'/' ∷ name ++ (b'/' ∷ path) in
    let e : DtnEndpoint = record { node_name = name; demux = path; is_dtn_none = false } in
    let valid : check_endpoint (some (dtn_endpoint e)) ≡ [] = rw parsed refl in
    rw (has_prefix-append (dtn_scheme ++ b':' ∷ []) ssp, parsed)
      (if_valid_back (dtn_endpoint e) valid)

dtn_back :
    (e : DtnEndpoint)
    → IsUri (dtn_endpoint e)
    → new_dtn_endpoint (endpoint_type_string (dtn_endpoint e)) ≡ some (dtn_endpoint e)
unfolding new_dtn_endpoint endpoint_type_string if_valid check_endpoint bind dtn_ssp
dtn_back e (inl (is_none, name, path)) =
    let same : e ≡ record { node_name = []; demux = []; is_dtn_none = true } =
      λ i. record { node_name = name i; demux = path i; is_dtn_none = is_none i } in
    rw same (rw (has_prefix-append (dtn_scheme ++ b':' ∷ []) none_ssp, parse_none) refl)
dtn_back e (inr (is_some, named)) =
    let parsed = parse_dtn_ssp-dtn_ssp e named in
    subst
      (λ b.
        let e' : DtnEndpoint = record {
          node_name = e.node_name;
          demux = e.demux;
          is_dtn_none = b;
        } in
        new_dtn_endpoint (endpoint_type_string (dtn_endpoint e')) ≡ some (dtn_endpoint e'))
      (sym is_some) (parts_back e.node_name e.demux parsed)

pair_inj :
    {x y z w : List ℕ} → ◌≡◌ {A = Option (List ℕ × List ℕ)} (some (x, y)) (some (z, w)) → y ≡ w
pair_inj h = cc

name_cons :
    (c : ℕ) (o : Option (List ℕ × List ℕ)) {name path : List ℕ}
    → Option.map {A = List ℕ × List ℕ} {B = List ℕ × List ℕ} (λ (n, r). (c ∷ n, r)) o
      ≡ some (name, path)
    → (n : List ℕ) × (o ≡ some (n, path))
name_cons c none h = cc
name_cons c (some (n, r)) h = (n, cc)

match_name-no_newline :
    (text : List ℕ) {name path : List ℕ}
    → match_name text ≡ some (name, path)
    → no_newline path ≡ true
    → no_newline text ≡ true
unfolding match_name no_newline is_name_char
match_name-no_newline [] h hp = cc
match_name-no_newline (c ∷ cs) {name} {path} h hp = elim (Bool-cases (c == b'/')) [
  | inl e ↦
      let same : cs ≡ path = pair_inj (rw e at h) in
      let rest : no_newline cs ≡ true = rw same hp in ground (arith, e, rest)
  | inr e ↦ elim (Bool-cases (is_name_char c)) [
    | inl f ↦
        let (n, h') = name_cons c (match_name cs) (rw (e, f) at h) in
        let rest = match_name-no_newline cs h' hp in ground (arith, f, rest)
    | inr f ↦ let h' = rw (e, f) at h in cc
  ]
]

parts_of :
    (o : Option (List ℕ × List ℕ)) {name path : List ℕ}
    → Option.map {B = List ℕ × List ℕ × Bool} (λ (n, d). (n, d, false)) o ≡ some (name, path, false)
    → o ≡ some (name, path)
parts_of none h = cc
parts_of (some (n, d)) h = cc

found_name :
    (o : Option (List ℕ × List ℕ)) {name path : List ℕ}
    → bind o name_not_empty ≡ some (name, path)
    → (o ≡ some (name, path)) × (no_newline path ≡ true)
unfolding bind name_not_empty
found_name none h = cc
found_name (some ([], d)) h = cc
found_name (some (c ∷ n, d)) {name} {path} h = elim (Bool-cases (no_newline d)) [
  | inl e ↦ let h' = rw e at h in (h', subst (λ p. no_newline p ≡ true) (pair_inj h') e)
  | inr e ↦ let h' = rw e at h in cc
]

matched-no_newline :
    (ssp : List ℕ) {name path : List ℕ} → match_ssp ssp ≡ some (name, path) → no_newline ssp ≡ true
unfolding match_ssp no_newline
matched-no_newline [] h = cc
matched-no_newline (a ∷ []) h = cc
matched-no_newline (a ∷ b ∷ rest) h = elim (Bool-cases (a == b'/' && b == b'/')) [
  | inl e ↦
      let (found, clean) = found_name (match_name rest) (rw e at h) in
      let rest' = match_name-no_newline rest found clean in ground (arith, e, rest')
  | inr e ↦ let h' = rw e at h in cc
]

parsed-no_newline :
    (ssp : List ℕ) {name path : List ℕ}
    → parse_dtn_ssp ssp ≡ some (name, path, false)
    → no_newline ssp ≡ true
unfolding parse_dtn_ssp
parsed-no_newline ssp h = elim (Bool-cases (bytes_eq ssp none_ssp)) [
  | inl e ↦ let h' = rw e at h in cc
  | inr e ↦ matched-no_newline ssp (parts_of (match_ssp ssp) (rw e at h))
]

dtn_scheme_back : (ssp : List ℕ) → split_scheme (dtn_scheme ++ b':' ∷ ssp) ≡ some (dtn_scheme, ssp)
unfolding split_scheme is_alnum
dtn_scheme_back ssp = refl

ipn_scheme_back : (ssp : List ℕ) → split_scheme (ipn_scheme ++ b':' ∷ ssp) ≡ some (ipn_scheme, ssp)
unfolding split_scheme is_alnum
ipn_scheme_back ssp = refl

digits-no_newline :
    (ds rest : List ℕ) → IsDigits ds → no_newline rest ≡ true → no_newline (ds ++ rest) ≡ true
unfolding no_newline IsDigits
digits-no_newline [] rest h hr = hr
digits-no_newline (d ∷ ds) rest (hd, h) hr =
    let others = digits-no_newline ds rest h hr in ground (arith, hd, others)

numbers-is_text : (n s : ℕ) → is_text (decimal n ++ b'.' ∷ decimal s) ≡ true
unfolding no_newline
numbers-is_text n s =
    let (d, ds, first) = decimal-cons 19 n in
    let second : no_newline (decimal s) ≡ true =
      rw (append-nil (decimal s)) at
        (digits-no_newline (decimal s) [] (decimal-IsDigits 20 s) refl) in
    let whole = digits-no_newline (decimal n) (b'.' ∷ decimal s) (decimal-IsDigits 20 n) second in
    rw first (rw first at whole)

of_dtn :
    (ssp : List ℕ) {y : Option EndpointType}
    → is_text ssp ≡ true
    → new_dtn_endpoint (dtn_scheme ++ b':' ∷ ssp) ≡ y
    → new_endpoint_id (dtn_scheme ++ b':' ∷ ssp) ≡ y
unfolding new_endpoint_id bind
of_dtn ssp h e = rw (dtn_scheme_back ssp) (rw (h, bytes_eq_refl dtn_scheme) e)

other_scheme : bytes_eq ipn_scheme dtn_scheme ≡ false
unfolding bytes_eq
other_scheme = refl

of_ipn :
    (ssp : List ℕ) {y : Option EndpointType}
    → is_text ssp ≡ true
    → new_ipn_endpoint (ipn_scheme ++ b':' ∷ ssp) ≡ y
    → new_endpoint_id (ipn_scheme ++ b':' ∷ ssp) ≡ y
unfolding new_endpoint_id bind
of_ipn ssp h e = rw (ipn_scheme_back ssp) (rw (h, other_scheme, bytes_eq_refl ipn_scheme) e)

dtn-is_text :
    (e : DtnEndpoint)
    → IsUri (dtn_endpoint e)
    → is_text (if e.is_dtn_none then none_ssp else dtn_ssp e) ≡ true
unfolding dtn_ssp no_newline
dtn-is_text e (inl (is_none, name, path)) = rw is_none refl
dtn-is_text e (inr (is_some, named)) =
    rw is_some (parsed-no_newline (dtn_ssp e) (parse_dtn_ssp-dtn_ssp e named))

-- NewEndpointID reads an endpoint back from its text, for "dtn:none"; for every dtn endpoint with a node
-- name that is not empty and has only digits, letters and "_-.", and a demux without a line feed;
-- and for every ipn endpoint with positive numbers below 2 ^ 64.
pub new_endpoint_id-string :
    (e : EndpointType) → IsUri e → new_endpoint_id (endpoint_type_string e) ≡ some e
unfolding endpoint_type_string
new_endpoint_id-string (dtn_endpoint e) h =
    of_dtn (if e.is_dtn_none then none_ssp else dtn_ssp e) (dtn-is_text e h) (dtn_back e h)
new_endpoint_id-string (ipn_endpoint e) h =
    of_ipn (decimal e.node ++ b'.' ∷ decimal e.service) (numbers-is_text e.node e.service)
      (ipn_back e h)
