-- ===== src/Bpv7/Block.antt =====
-- extension_block*.go and canonical_block.go: extension blocks and the canonical blocks that carry
-- them.
use dtn.Prelude.{ℕ, ◌+◌, ◌%◌, ◌-◌, List, [], ◌∷◌, ◌++◌, Bool, not, ◌&&◌, ltb, ◌==◌, if◌then◌else◌}
use dtn.Prelude.Int.{u64_mod}
use dtn.Bpv7.Errors.{Error, hop_count_exceeded, payload_number}
use dtn.Bpv7.Endpoint.{EndpointId, check_endpoint}

abbrev pub payload_code : ℕ
payload_code = 1

abbrev pub previous_node_code : ℕ
previous_node_code = 6

abbrev pub bundle_age_code : ℕ
bundle_age_code = 7

abbrev pub hop_count_code : ℕ
hop_count_code = 10

pub record HopCountBlock : Type 0 where
  pub limit : ℕ
  pub count : ℕ

unfoldable pub new_hop_count : ℕ → HopCountBlock
new_hop_count limit = record { limit = limit; count = 0 }

unfoldable pub is_exceeded : HopCountBlock → Bool
is_exceeded h = ltb h.limit h.count

-- The counter is a byte and wraps.
unfoldable pub hop_increment : HopCountBlock → HopCountBlock × Bool
hop_increment h =
    let h' : HopCountBlock = record h { count = (h.count + 1) % 256 } in (h', is_exceeded h')

unfoldable pub hop_decrement : HopCountBlock → HopCountBlock
hop_decrement h = record h { count = (h.count + 256 - 1) % 256 }

-- BundleAgeBlock.Increment
unfoldable pub age_increment : ℕ → ℕ → ℕ
age_increment age offset = (age + offset) % u64_mod

-- A block of any other type is kept as its bytes and its type code.
pub data ExtensionBlock : Type 0 where
  payload : List ℕ → ExtensionBlock
  previous_node : EndpointId → ExtensionBlock
  bundle_age : ℕ → ExtensionBlock
  hop_count : HopCountBlock → ExtensionBlock
  generic : List ℕ → ℕ → ExtensionBlock

unfoldable pub block_type_code : ExtensionBlock → ℕ
block_type_code (payload data') = payload_code
block_type_code (previous_node e) = previous_node_code
block_type_code (bundle_age ms) = bundle_age_code
block_type_code (hop_count h) = hop_count_code
block_type_code (generic data' code) = code

unfoldable pub check_extension : ExtensionBlock → List Error
check_extension (previous_node e) = check_endpoint e
check_extension (hop_count h) = if is_exceeded h then hop_count_exceeded ∷ [] else []
check_extension _ = []

pub record CanonicalBlock : Type 0 where
  pub block_number : ℕ
  pub block_control_flags : ℕ
  pub crc_type : ℕ
  pub crc : List ℕ
  pub value : ExtensionBlock

unfoldable pub new_canonical_block : ℕ → ℕ → ExtensionBlock → CanonicalBlock
new_canonical_block n bcf value = record {
  block_number = n;
  block_control_flags = bcf;
  crc_type = 0;
  crc = [];
  value = value;
}

unfoldable pub type_code : CanonicalBlock → ℕ
type_code cb = block_type_code cb.value

unfoldable pub set_crc_type : ℕ → CanonicalBlock → CanonicalBlock
set_crc_type t cb = record cb { crc_type = t }

-- CanonicalBlock.CheckValid; the block control flags have nothing to check.
unfoldable pub check_canonical : CanonicalBlock → List Error
check_canonical cb =
    check_extension cb.value
    ++ (if type_code cb == payload_code && not (cb.block_number == 1)
        then payload_number cb.block_number ∷ []
        else [])
