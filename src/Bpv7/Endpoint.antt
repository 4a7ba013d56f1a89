-- ===== src/Bpv7/Endpoint.antt =====
-- endpoint.go, endpoint_dtn.go and endpoint_ipn.go: endpoint identifiers. Texts are their bytes.
use dtn.Prelude.{
  ℕ, ◌≡◌, refl, List, [], ◌∷◌, ◌++◌, Option, none, some, Bool, true, false, not, ◌&&◌, ◌||◌, arith,
  ltb, leb, ◌==◌, if◌then◌else◌, bytes_eq, bytes_eq_refl, bytes_eq_sound,
}
use mathlib.Core.Option
use dtn.Bpv7.Errors.{Error, endpoint_nil, dtn_regexp, ipn_zero}

pub record DtnEndpoint : Type 0 where
  pub node_name : List ℕ
  pub demux : List ℕ
  pub is_dtn_none : Bool

pub record IpnEndpoint : Type 0 where
  pub node : ℕ
  pub service : ℕ

pub data EndpointType : Type 0 where
  dtn_endpoint : DtnEndpoint → EndpointType
  ipn_endpoint : IpnEndpoint → EndpointType

-- `none` is an EndpointID whose EndpointType is nil.
abbrev pub EndpointId : Type 0
EndpointId = Option EndpointType

abbrev pub dtn_none : EndpointId
dtn_none = some (dtn_endpoint (record { node_name = []; demux = []; is_dtn_none = true }))

abbrev bool_eq : Bool → Bool → Bool
bool_eq true b = b
bool_eq false b = not b

-- Go's `==` of two endpoint identifiers compares the dynamic type, then every field.
unfoldable pub eid_eq : EndpointId → EndpointId → Bool
eid_eq none none = true
eid_eq none (some f) = false
eid_eq (some e) none = false
eid_eq (some (dtn_endpoint d)) (some (dtn_endpoint e)) =
    bytes_eq d.node_name e.node_name
    && bytes_eq d.demux e.demux
    && bool_eq d.is_dtn_none e.is_dtn_none
eid_eq (some (dtn_endpoint d)) (some (ipn_endpoint j)) = false
eid_eq (some (ipn_endpoint i)) (some (dtn_endpoint e)) = false
eid_eq (some (ipn_endpoint i)) (some (ipn_endpoint j)) = i.node == j.node && i.service == j.service

abbrev pub none_ssp : List ℕ
none_ssp = b'n' ∷ b'o' ∷ b'n' ∷ b'e' ∷ []

-- The character class `[\w-._]`.
unfoldable pub is_name_char : ℕ → Bool
is_name_char c =
    (leb b'0' c && leb c b'9')
    || (leb b'A' c && leb c b'Z')
    || (leb b'a' c && leb c b'z')
    || c == b'_'
    || c == b'-'
    || c == b'.'

-- The class holds no slash, so the node name ends at the first one.
unfoldable pub match_name : List ℕ → Option (List ℕ × List ℕ)
match_name [] = none
match_name (c ∷ cs) =
    if c == b'/'
    then some ([], cs)
    else if is_name_char c
    then Option.map (λ (n, r). (c ∷ n, r)) (match_name cs)
    else none

-- `.*` matches all but a line feed.
unfoldable pub no_newline : List ℕ → Bool
no_newline [] = true
no_newline (c ∷ cs) = not (c == 10) && no_newline cs

unfoldable pub name_not_empty : List ℕ × List ℕ → Option (List ℕ × List ℕ)
name_not_empty ([], demux) = none
name_not_empty (c ∷ n, demux) = if no_newline demux then some (c ∷ n, demux) else none

-- `//([\w-._]+)/(.*)` on a whole text.
unfoldable pub match_ssp : List ℕ → Option (List ℕ × List ℕ)
unfolding name_not_empty
match_ssp [] = none
match_ssp (a ∷ []) = none
match_ssp (a ∷ b ∷ rest) =
    if a == b'/' && b == b'/' then Option.bind (match_name rest) name_not_empty else none

-- parseDtnSsp: nothing for an error, the flag for "dtn:none".
unfoldable pub parse_dtn_ssp : List ℕ → Option (List ℕ × List ℕ × Bool)
parse_dtn_ssp ssp =
    if bytes_eq ssp none_ssp
    then some ([], [], true)
    else Option.map (λ (n, d). (n, d, false)) (match_ssp ssp)

-- What follows "dtn:" in DtnEndpoint.String, and in its CBOR representation.
unfoldable pub dtn_ssp : DtnEndpoint → List ℕ
dtn_ssp e = b'/' ∷ b'/' ∷ e.node_name ++ (b'/' ∷ e.demux)

-- The regular expression on "dtn:" with `dtn_ssp`.
unfoldable pub check_endpoint : EndpointId → List Error
check_endpoint none = endpoint_nil ∷ []
check_endpoint (some (dtn_endpoint e)) =
    if e.is_dtn_none
    then []
    else elim (parse_dtn_ssp (dtn_ssp e)) [ some _ ↦ [] | none ↦ dtn_regexp ∷ [] ]
check_endpoint (some (ipn_endpoint e)) =
    if ltb e.node 1 || ltb e.service 1 then ipn_zero ∷ [] else []

pub eid_eq_refl : (e : EndpointId) → eid_eq e e ≡ true
unfolding eid_eq
eid_eq_refl none = refl
eid_eq_refl (some (dtn_endpoint d)) =
    ground (arith, bytes_eq_refl d.node_name, bytes_eq_refl d.demux)
eid_eq_refl (some (ipn_endpoint i)) = ground arith

pub eid_eq_sound : (e f : EndpointId) → eid_eq e f ≡ true → e ≡ f
unfolding eid_eq
eid_eq_sound none none h = refl
eid_eq_sound none (some f) h = cc
eid_eq_sound (some e) none h = cc
eid_eq_sound (some (dtn_endpoint d)) (some (dtn_endpoint e)) h =
    ground (arith, bytes_eq_sound d.node_name e.node_name, bytes_eq_sound d.demux e.demux)
eid_eq_sound (some (dtn_endpoint d)) (some (ipn_endpoint j)) h = cc
eid_eq_sound (some (ipn_endpoint i)) (some (dtn_endpoint e)) h = cc
eid_eq_sound (some (ipn_endpoint i)) (some (ipn_endpoint j)) h = ground arith
