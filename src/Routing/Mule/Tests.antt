-- ===== src/Routing/Mule/Tests.antt =====
-- A mule over an algorithm that takes three peers, two of which are sensors; one of them is the endpoint that received the bundle.
use dtn.Bpv7.Uri.{decimal_digits, same_node, authority}
use dtn.Prelude.{ℕ, ◌≡◌, refl, [], ◌∷◌, none, some, Bool, true, ◌||◌, ok, bytes_eq}
use dtn.Bpv7.Endpoint.{EndpointId, ipn_endpoint, eid_eq}
use dtn.Bpv7.Bundle.{Bundle, bundle_id}
use dtn.Bpv7.Codec.Tests.{fragment_primary}
use dtn.Routing.Descriptor.{no_constraints, Descriptor}
use dtn.Routing.Core.{Memory, Choice, Algorithm}
use dtn.Routing.Mule.{exclude_senders, is_allowed, sender_for_bundle}
use dtn.Routing.Mule.Filtering.{IsFiltered, sender_for_bundle-IsFiltered}

abbrev at : ℕ → EndpointId
at n = some (ipn_endpoint (record { node = n; service = 1 }))

abbrev all_three : Algorithm ℕ
all_three = record {
  notify_new_bundle = λ m d b. ok m;
  dispatching_allowed = λ m d. ok (true, m);
  sender_for_bundle = λ m d b.
      ok record {
        chosen = at 2 ∷ at 3 ∷ at 4 ∷ [];
        delete_afterwards = true;
        memory = m;
        bundle = b;
      };
  report_failure = λ m d peer b. ok (record m { state = 1 }, b);
}

abbrev sensor : EndpointId → Bool
sensor e = eid_eq e (at 3) || eid_eq e (at 4)

abbrev letter : Bundle
letter = record { primary_block = fragment_primary; canonical_blocks = [] }

abbrev described_letter : Descriptor
described_letter = record {
  id = bundle_id letter;
  held_by = at 4;
  received_at = 0;
  pending = no_constraints;
  bndl = some letter;
}

abbrev memory_of : ℕ → Memory ℕ
memory_of n = record { store = record { items = λ id. none; files = λ k. none }; state = n }

-- The other sensor is left out, and the algorithm was told.
abbrev left_over : Choice ℕ
left_over = record {
  chosen = at 2 ∷ at 4 ∷ [];
  delete_afterwards = true;
  memory = memory_of 1;
  bundle = letter;
}

mule_chooses :
    sender_for_bundle all_three sensor (memory_of 0) described_letter letter ≡ ok left_over
unfolding sender_for_bundle exclude_senders is_allowed eid_eq same_node bytes_eq authority
    decimal_digits
mule_chooses = refl

sender_for_bundle-IsFiltered_example :
    (c : Choice ℕ) × (all_three.sender_for_bundle (memory_of 0) described_letter letter ≡ ok c)
    × IsFiltered all_three sensor described_letter c left_over
sender_for_bundle-IsFiltered_example =
    sender_for_bundle-IsFiltered all_three sensor (memory_of 0) described_letter letter mule_chooses
