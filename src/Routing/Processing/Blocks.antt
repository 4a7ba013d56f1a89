-- ===== src/Routing/Processing/Blocks.antt =====
-- processing.go: what processing does to the blocks of a bundle.
use dtn.Prelude.{
  ℕ, ◌+◌, ◌-◌, ◌/◌, ◌%◌, List, [], ◌∷◌, Option, none, some, Bool, false, ok, panic, ◌>>=◌, leb,
  ◌==◌, if◌then◌else◌,
}
use dtn.Prelude.Int.{u64_mod}
use dtn.Bpv7.Errors.{Result}
use dtn.Bpv7.Flags.{has, administrative_record_payload}
use dtn.Bpv7.Endpoint.{EndpointId}
use dtn.Bpv7.Block.{
  ExtensionBlock, CanonicalBlock, previous_node, bundle_age, hop_count, HopCountBlock,
  hop_increment, hop_decrement, age_increment, new_canonical_block, previous_node_code,
  bundle_age_code, hop_count_code, type_code, is_exceeded,
}
use dtn.Bpv7.Bundle.{Bundle, add_extension_block}

-- The value of the first block of a type.
unfoldable pub set_value : ℕ → ExtensionBlock → List CanonicalBlock → List CanonicalBlock
set_value code value [] = []
set_value code value (cb ∷ cbs) =
    if type_code cb == code
    then record cb { value = value } ∷ cbs
    else cb ∷ set_value code value cbs

abbrev pub with_value : ℕ → ExtensionBlock → Bundle → Bundle
with_value code value b = record b { canonical_blocks = set_value code value b.canonical_blocks }

-- The assertions on the type of a block's value panic.
unfoldable pub assert_hop_count : ExtensionBlock → Result HopCountBlock
assert_hop_count (hop_count h) = ok h
assert_hop_count _ = panic

unfoldable pub assert_bundle_age : ExtensionBlock → Result ℕ
assert_bundle_age (bundle_age age) = ok age
assert_bundle_age _ = panic

unfoldable pub assert_previous_node : ExtensionBlock → Result EndpointId
assert_previous_node (previous_node e) = ok e
assert_previous_node _ = panic

-- The hop count block, counted up; no block is not exceeded.
unfoldable pub count_hop : Bundle → Option CanonicalBlock → Result (Bundle × Bool)
count_hop b none = ok (b, false)
count_hop b (some cb) = do
  h ← assert_hop_count cb.value
  ok (with_value hop_count_code (hop_count (hop_increment h).0) b, is_exceeded (hop_increment h).0)

unfoldable pub uncount_hop : Bundle → Option CanonicalBlock → Result Bundle
uncount_hop b none = ok b
uncount_hop b (some cb) = do
  h ← assert_hop_count cb.value
  ok (with_value hop_count_code (hop_count (hop_decrement h)) b)

-- UpdateBundleAge: the age in the block, if there is one. The time since the reception is an int64.
unfoldable pub update_age : ℕ → ℕ → Bundle → Option CanonicalBlock → Result (Bundle × Option ℕ)
update_age now received b none = ok (b, none)
update_age now received b (some cb) = do
  age ← assert_bundle_age cb.value
  let age' = age_increment age ((now + u64_mod - received) % u64_mod / 1000)
  ok (with_value bundle_age_code (bundle_age age') b, some age')

unfoldable pub age_expired : Bundle → Option ℕ → Bool
age_expired b none = false
age_expired b (some age) = leb b.primary_block.lifetime age

-- The previous node block is replaced or appended.
unfoldable pub set_previous_node : EndpointId → Bundle → Option CanonicalBlock → Result Bundle
set_previous_node e b none = ok (add_extension_block b (new_canonical_block 0 0 (previous_node e)))
set_previous_node e b (some cb) = do
  old ← assert_previous_node cb.value
  ok (with_value previous_node_code (previous_node e) b)

unfoldable pub is_administrative_record : Bundle → Bool
is_administrative_record b = has b.primary_block.bundle_control_flags administrative_record_payload
