-- ===== src/Bpv7/Fragmentation/Tests.antt =====
-- A bundle with a payload of 30 octets is cut into fragments.
use dtn.Prelude.{ℕ, ◌≡◌, refl, List, [], ◌∷◌, some, ok, arith}
use dtn.Bpv7.Endpoint.{EndpointId, ipn_endpoint}
use dtn.Bpv7.Block.{
  payload, hop_count, new_hop_count, new_canonical_block, type_code, block_type_code,
}
use dtn.Bpv7.Bundle.{Bundle, payload_block, extension_block, find_block}
use dtn.Bpv7.Reassembly.{payload_data, assert_payload}
use dtn.Bpv7.Codec.Tests.{tagged, sums}
use dtn.Bpv7.Fragmentation.{fragment}
use dtn.Bpv7.Fragmentation.Whole.{Fragmented, fragment-Fragmented}

abbrev node : ℕ → EndpointId
node n = some (ipn_endpoint record { node = n; service = 1 })

abbrev ten : List ℕ → List ℕ
ten bytes = 1 ∷ 2 ∷ 3 ∷ 4 ∷ 5 ∷ 6 ∷ 7 ∷ 8 ∷ 9 ∷ 10 ∷ bytes

abbrev bytes : List ℕ
bytes = ten (ten (ten []))

abbrev bundle : Bundle
bundle = record {
  primary_block = record {
    version = 7;
    bundle_control_flags = 0;
    crc_type = 0;
    destination = node 2;
    source_node = node 3;
    report_to = node 3;
    creation_timestamp = record { dtn_time = 1000; sequence_number = 3 };
    lifetime = 5000;
    fragment_offset = 0;
    total_data_length = 0;
    crc = [];
  };
  canonical_blocks =
      new_canonical_block 2 0 (hop_count (new_hop_count 5))
      ∷ new_canonical_block 1 0 (payload bytes)
      ∷ [];
}

bundle-payload : payload_data bundle ≡ ok bytes
unfolding payload_data payload_block extension_block find_block assert_payload type_code
    block_type_code new_canonical_block
bundle-payload = refl

fragment-Fragmented_example : Fragmented bundle bytes (fragment tagged sums (λ n. 2) 0 100 bundle)
fragment-Fragmented_example =
    fragment-Fragmented tagged sums (λ n. 2) bundle bytes (omega arith) 0 100 bundle-payload
