-- ===== src/Bpv7/Uri/Tests.antt =====
-- Texts of endpoints.
use dtn.Prelude.{◌≡◌, refl, [], ◌∷◌, some, false, inl, inr, arith}
use dtn.Bpv7.Endpoint.{DtnEndpoint, dtn_endpoint}
use dtn.Bpv7.Uri.{new_endpoint_id, endpoint_type_string, decimal_digits, decimal}
use dtn.Bpv7.Uri.RoundTrip.{HasName, new_endpoint_id-string}

decimal_test : decimal 4207 ≡ b'4' ∷ b'2' ∷ b'0' ∷ b'7' ∷ []
unfolding decimal_digits
decimal_test = refl

abbrev letter_box : DtnEndpoint
letter_box = record {
  node_name = b'n' ∷ b'-' ∷ b'1' ∷ [];
  demux = b'i' ∷ b'n' ∷ [];
  is_dtn_none = false;
}

letter_box-HasName : HasName letter_box.node_name letter_box.demux
letter_box-HasName = record {
  initial = b'n';
  further = b'-' ∷ b'1' ∷ [];
  not_empty = refl;
  allowed = (
    inr (inr (inl (omega arith, omega arith))),
    (inr (inr (inr (inr (inl refl)))), (inl (omega arith, omega arith), tt)),
  );
  one_line = (λ e. omega (arith, e), (λ e. omega (arith, e), tt));
}

new_endpoint_id-string_example :
    new_endpoint_id (endpoint_type_string (dtn_endpoint letter_box))
    ≡ some (dtn_endpoint letter_box)
new_endpoint_id-string_example =
    new_endpoint_id-string (dtn_endpoint letter_box) (inr (refl, letter_box-HasName))
