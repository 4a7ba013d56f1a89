-- ===== src/Bpv7/Uri.antt =====
-- endpoint.go, endpoint_dtn.go and endpoint_ipn.go: the texts of endpoint identifiers, as URIs, and
-- the parts of an endpoint. No result stands for an error.
use dtn.Prelude.{
  ℕ, zero, suc, ◌+◌, ◌*◌, ◌-◌, ◌/◌, ◌%◌, ◌^◌, List, [], ◌∷◌, ◌++◌, Option, none, some, Bool, true,
  false, not, ◌&&◌, ◌||◌, length, take, drop, ltb, leb, ◌==◌, if◌then◌else◌, bytes_eq,
}
use mathlib.Core.Option
use dtn.Prelude.Int.{u64_mod}
use dtn.Bpv7.Errors.{Error}
use dtn.Bpv7.Endpoint.{
  DtnEndpoint, IpnEndpoint, EndpointType, dtn_endpoint, ipn_endpoint, EndpointId, none_ssp,
  no_newline, parse_dtn_ssp, dtn_ssp, check_endpoint, dtn_none, eid_eq,
}
pub mod RoundTrip
mod Tests

abbrev pub dtn_scheme : List ℕ
dtn_scheme = b'd' ∷ b't' ∷ b'n' ∷ []

abbrev pub ipn_scheme : List ℕ
ipn_scheme = b'i' ∷ b'p' ∷ b'n' ∷ []

-- `%d` of a word, which has at most 20 digits.
unfoldable pub decimal_digits : ℕ → ℕ → List ℕ
decimal_digits zero n = []
decimal_digits (suc fuel) n =
    let high = decimal_digits fuel (n / 10) in
    if ltb n 10 then (b'0' + n) ∷ [] else high ++ (b'0' + n % 10) ∷ []

abbrev pub decimal : ℕ → List ℕ
decimal n = decimal_digits 20 n

unfoldable pub decimal_value : ℕ → List ℕ → ℕ
decimal_value acc [] = acc
decimal_value acc (d ∷ ds) = decimal_value (acc * 10 + (d - b'0')) ds

-- `strconv.ParseUint` on decimal digits.
unfoldable pub parse_uint : List ℕ → Option ℕ
parse_uint ds = if ltb (decimal_value 0 ds) u64_mod then some (decimal_value 0 ds) else none

abbrev pub is_digit : ℕ → Bool
is_digit c = leb b'0' c && leb c b'9'

unfoldable pub is_alnum : ℕ → Bool
is_alnum c = is_digit c || (leb b'A' c && leb c b'Z') || (leb b'a' c && leb c b'z')

-- A run of digits, and what follows it.
unfoldable pub span_digits : List ℕ → List ℕ × List ℕ
span_digits [] = ([], [])
span_digits (c ∷ cs) =
    let (ds, rest) = span_digits cs in if is_digit c then (c ∷ ds, rest) else ([], c ∷ cs)

whole_number : List ℕ → List ℕ × List ℕ → Option (List ℕ × List ℕ)
whole_number node (d ∷ ds, []) = some (node, d ∷ ds)
whole_number node (d ∷ ds, c ∷ cs) = none
whole_number node ([], rest) = none

match_two : List ℕ × List ℕ → Option (List ℕ × List ℕ)
unfolding whole_number
match_two ([], rest) = none
match_two (d ∷ ds, []) = none
match_two (d ∷ ds, c ∷ cs) = if c == b'.' then whole_number (d ∷ ds) (span_digits cs) else none

-- `(\d+)\.(\d+)` on a whole text.
unfoldable pub match_numbers : List ℕ → Option (List ℕ × List ℕ)
unfolding match_two
match_numbers text = match_two (span_digits text)

unfoldable pub has_prefix : List ℕ → List ℕ → Bool
has_prefix prefix text = bytes_eq (take (length prefix) text) prefix

unless_errors : List Error → EndpointType → Option EndpointType
unless_errors [] e = some e
unless_errors (x ∷ xs) e = none

-- The endpoint, unless CheckValid has an error.
unfoldable pub if_valid : EndpointType → Option EndpointType
unfolding unless_errors
if_valid e = unless_errors (check_endpoint (some e)) e

dtn_of_parts : List ℕ × List ℕ × Bool → EndpointType
dtn_of_parts (name, path, true) =
    dtn_endpoint record { node_name = []; demux = []; is_dtn_none = true }
dtn_of_parts (name, path, false) =
    dtn_endpoint record { node_name = name; demux = path; is_dtn_none = false }

unfoldable pub new_dtn_endpoint : List ℕ → Option EndpointType
unfolding dtn_of_parts
new_dtn_endpoint uri =
    if has_prefix (dtn_scheme ++ b':' ∷ []) uri
    then Option.bind (parse_dtn_ssp (drop 4 uri)) (λ parts. if_valid (dtn_of_parts parts))
    else none

ipn_of_numbers : List ℕ × List ℕ → Option EndpointType
ipn_of_numbers (ns, ss) = Option.bind (parse_uint ns) (λ n.
    Option.bind (parse_uint ss) (λ s. if_valid (ipn_endpoint record { node = n; service = s })))

unfoldable pub new_ipn_endpoint : List ℕ → Option EndpointType
unfolding ipn_of_numbers
new_ipn_endpoint uri =
    if has_prefix (ipn_scheme ++ b':' ∷ []) uri
    then Option.bind (match_numbers (drop 4 uri)) ipn_of_numbers
    else none

-- `([[:alnum:]]+):` at the start of a text; the class has no colon.
unfoldable pub split_scheme : List ℕ → Option (List ℕ × List ℕ)
split_scheme [] = none
split_scheme (c ∷ cs) =
    let rest = split_scheme cs in
    if c == b':'
    then some ([], cs)
    else if is_alnum c
    then Option.map (λ (scheme, ssp). (c ∷ scheme, ssp)) rest
    else none

-- `.+` on a whole text.
abbrev pub is_text : List ℕ → Bool
is_text [] = false
is_text (c ∷ cs) = no_newline (c ∷ cs)

-- The registered function for a scheme name, called if the whole text matches.
new_of_scheme : List ℕ → List ℕ × List ℕ → Option EndpointType
new_of_scheme uri (scheme, ssp) =
    if not (is_text ssp)
    then none
    else if bytes_eq scheme dtn_scheme
    then new_dtn_endpoint uri
    else if bytes_eq scheme ipn_scheme
    then new_ipn_endpoint uri
    else none

-- NewEndpointID
unfoldable pub new_endpoint_id : List ℕ → Option EndpointType
unfolding new_of_scheme
new_endpoint_id uri = Option.bind (split_scheme uri) (new_of_scheme uri)

-- The String methods.
unfoldable pub endpoint_type_string : EndpointType → List ℕ
endpoint_type_string (dtn_endpoint e) =
    dtn_scheme ++ b':' ∷ (if e.is_dtn_none then none_ssp else dtn_ssp e)
endpoint_type_string (ipn_endpoint e) =
    ipn_scheme ++ b':' ∷ (decimal e.node ++ b'.' ∷ decimal e.service)

unfoldable pub endpoint_string : EndpointId → List ℕ
endpoint_string none = dtn_scheme ++ b':' ∷ none_ssp
endpoint_string (some e) = endpoint_type_string e

unfoldable pub authority : EndpointType → List ℕ
authority (dtn_endpoint e) = if e.is_dtn_none then none_ssp else e.node_name
authority (ipn_endpoint e) = decimal e.node

unfoldable pub path : EndpointType → List ℕ
path (dtn_endpoint e) = if e.is_dtn_none then b'/' ∷ [] else b'/' ∷ e.demux
path (ipn_endpoint e) = decimal e.service

unfoldable pub is_singleton : EndpointType → Bool
is_singleton (dtn_endpoint e) = not (has_prefix (b'~' ∷ []) e.demux) && not e.is_dtn_none
is_singleton (ipn_endpoint e) = true

-- The dynamic types have one scheme each.
same_scheme : EndpointType → EndpointType → Bool
same_scheme (dtn_endpoint d) (dtn_endpoint e) = true
same_scheme (ipn_endpoint i) (ipn_endpoint j) = true
same_scheme (dtn_endpoint d) (ipn_endpoint j) = false
same_scheme (ipn_endpoint i) (dtn_endpoint e) = false

-- EndpointID.SameNode
unfoldable pub same_node : EndpointId → EndpointId → Bool
unfolding same_scheme
same_node none none = true
same_node none (some f) = eid_eq (some f) dtn_none
same_node (some e) none = eid_eq (some e) dtn_none
same_node (some e) (some f) = same_scheme e f && bytes_eq (authority e) (authority f)
