-- ===== src/Routing/Tests.antt =====
-- Three bundles of a node, two of them with the same creation time.
use dtn.Prelude.{ℕ, ◌≡◌, refl, List, [], ◌∷◌, some, false, All}
use dtn.Bpv7.Endpoint.{EndpointId, ipn_endpoint}
use dtn.Bpv7.Bundle.{Bundle}
use dtn.Routing.IdKeeper.{
  IdTuple, new_id_keeper, is_old, next_id, update_all, sequences, count_from, sequences-update_all,
}

abbrev node : EndpointId
node = some (ipn_endpoint (record { node = 1; service = 1 }))

abbrev created : ℕ → Bundle
created time = record {
  primary_block = record {
    version = 7;
    bundle_control_flags = 0;
    crc_type = 2;
    destination = node;
    source_node = node;
    report_to = node;
    creation_timestamp = record { dtn_time = time; sequence_number = 0 };
    lifetime = 5000;
    fragment_offset = 0;
    total_data_length = 0;
    crc = [];
  };
  canonical_blocks = [];
}

abbrev calls : List (ℕ × Bundle)
calls = (200000, created 199000) ∷ (200001, created 200001) ∷ (200002, created 199000) ∷ []

abbrev tuple : IdTuple
tuple = record { source = node; time = 199000 }

calls_stay_young : All (λ (now, b). is_old now tuple ≡ false) calls
unfolding is_old
calls_stay_young = (refl, (refl, (refl, tt)))

sequences-update_all_example :
    sequences tuple (update_all new_id_keeper calls)
    ≡ count_from (next_id new_id_keeper tuple) tuple calls
sequences-update_all_example = sequences-update_all tuple new_id_keeper calls calls_stay_young
