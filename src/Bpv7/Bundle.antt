-- ===== src/Bpv7/Bundle.antt =====
-- bundle.go, canonical_block_sort.go and bundle_id.go: bundles and the operations on their blocks.
-- `now` is the time that time.Now returns, in nanoseconds since the Unix epoch.
pub mod Order
pub mod Numbers
pub mod Removal
pub mod Payload
pub mod Validity
pub mod Crc
use dtn.Prelude.{
  ℕ, zero, suc, ◌+◌, ◌*◌, List, [], ◌∷◌, ◌++◌, map, Option, none, some, Bool, true, false, not,
  ◌&&◌, ◌||◌, length, ltb, ◌==◌, if◌then◌else◌, ok, err, panic, ◌>>=◌,
}
use dtn.Prelude.Sort.{sort_by}
use dtn.Prelude.Int.{ℤ, pos, ◌+ℤ◌, ltb_ℤ, signed64}
use dtn.Bpv7.Errors.{
  Error, Result, no_canonical_blocks, status_report_block, duplicate_number, duplicate_type,
  last_not_payload, no_age_block, lifetime_exceeded, no_block,
}
use dtn.Bpv7.Flags.{has, is_fragment, administrative_record_payload, status_report_flag}
use dtn.Bpv7.Endpoint.{EndpointId, dtn_none, eid_eq}
use dtn.Bpv7.Time.{CreationTimestamp, is_zero_time, dtn_time_instant}
use dtn.Bpv7.Block.{
  CanonicalBlock, bundle_age, payload_code, bundle_age_code, type_code, set_crc_type,
  check_canonical,
}
use dtn.Bpv7.Primary.{PrimaryBlock, check_primary}

pub record Bundle : Type 0 where
  pub primary_block : PrimaryBlock
  pub canonical_blocks : List CanonicalBlock

-- The order of two block numbers: 1 is behind all others.
unfoldable pub less : ℕ → ℕ → Bool
less i j = if i == payload_code then false else if j == payload_code then true else ltb i j

-- canonicalBlockNumberSort.Less
unfoldable pub less_block : CanonicalBlock → CanonicalBlock → Bool
unfolding less
less_block c d = less c.block_number d.block_number

unfoldable pub sort_blocks : List CanonicalBlock → List CanonicalBlock
unfolding less_block sort_by
sort_blocks bs = sort_by less_block bs

unfoldable pub must_new_bundle : PrimaryBlock → List CanonicalBlock → Bundle
must_new_bundle primary canonicals = record {
  primary_block = primary;
  canonical_blocks = sort_blocks canonicals;
}

-- The first block of a type.
unfoldable pub find_block : ℕ → List CanonicalBlock → Option CanonicalBlock
find_block code [] = none
find_block code (cb ∷ cbs) = if type_code cb == code then some cb else find_block code cbs

-- `nil` with an error, or a block.
abbrev pub or_error {ℓ} : {A : Type ℓ} → Option A → Error → Result A
or_error (some a) e = ok a
or_error none e = err e

unfoldable pub extension_block : Bundle → ℕ → Result CanonicalBlock
extension_block b code = or_error (find_block code b.canonical_blocks) (no_block code)

abbrev is_some {ℓ} : {A : Type ℓ} → Option A → Bool
is_some (some a) = true
is_some none = false

unfoldable pub has_extension_block : Bundle → ℕ → Bool
has_extension_block b code = is_some (find_block code b.canonical_blocks)

unfoldable pub payload_block : Bundle → Result CanonicalBlock
payload_block b = extension_block b payload_code

unfoldable pub contains : List ℕ → ℕ → Bool
contains [] n = false
contains (x ∷ xs) n = n == x || contains xs n

abbrev pub numbers : List CanonicalBlock → List ℕ
numbers = map (λ cb. cb.block_number)

-- The loop that counts up to a number that is not taken; it runs at most once for each number.
unfoldable pub free_number : ℕ → List ℕ → ℕ → ℕ
free_number zero taken n = n
free_number (suc fuel) taken n =
    let rest = free_number fuel taken (n + 1) in if contains taken n then rest else n

unfoldable pub next_number : CanonicalBlock → List CanonicalBlock → ℕ
next_number block cbs =
    free_number (length cbs + 1) (numbers cbs) (if type_code block == payload_code then 1 else 2)

unfoldable pub add_extension_block : Bundle → CanonicalBlock → Bundle
add_extension_block b block = record b {
  canonical_blocks = sort_blocks (
      b.canonical_blocks
      ++ record block { block_number = next_number block b.canonical_blocks } ∷ []);
}

unfoldable pub remove_number : ℕ → List CanonicalBlock → List CanonicalBlock
remove_number n [] = []
remove_number n (cb ∷ cbs) = if cb.block_number == n then cbs else cb ∷ remove_number n cbs

unfoldable pub remove_extension_block : Bundle → ℕ → Bundle
remove_extension_block b n = record b { canonical_blocks = remove_number n b.canonical_blocks }

pub record BundleId : Type 0 where
  pub source_node : EndpointId
  pub timestamp : CreationTimestamp
  pub id_is_fragment : Bool
  pub id_fragment_offset : ℕ
  pub id_total_data_length : ℕ

unfoldable pub bundle_id : Bundle → BundleId
bundle_id b = record {
  source_node = b.primary_block.source_node;
  timestamp = b.primary_block.creation_timestamp;
  id_is_fragment = has b.primary_block.bundle_control_flags is_fragment;
  id_fragment_offset = b.primary_block.fragment_offset;
  id_total_data_length = b.primary_block.total_data_length;
}

unfoldable pub scrub : BundleId → BundleId
scrub bid = record bid { id_is_fragment = false; id_fragment_offset = 0; id_total_data_length = 0 }

-- The type assertion `Value.(*BundleAgeBlock)` panics at a block of another type.
unfoldable pub assert_age : CanonicalBlock → Result ℕ
assert_age cb = elim cb.value [ bundle_age ms ↦ ok ms | _ ↦ panic ]

age_exceeded : ℕ → Option CanonicalBlock → Result Bool
age_exceeded lifetime none = ok true
age_exceeded lifetime (some cb) = do age ← assert_age cb; ok (ltb lifetime age)

-- The creation time with `time.Duration(lifetime) * time.Millisecond`, a 64-bit product.
unfoldable pub expiry : CreationTimestamp → ℕ → ℤ
expiry ct lifetime = dtn_time_instant ct.dtn_time +ℤ signed64 (lifetime * 1000000)

unfoldable pub is_lifetime_exceeded : ℕ → Bundle → Result Bool
unfolding age_exceeded assert_age
is_lifetime_exceeded now b =
    if is_zero_time b.primary_block.creation_timestamp
    then age_exceeded b.primary_block.lifetime (find_block bundle_age_code b.canonical_blocks)
    else ok (ltb_ℤ (expiry b.primary_block.creation_timestamp b.primary_block.lifetime) (pos now))

unfoldable pub check_canonicals : List CanonicalBlock → List Error
check_canonicals [] = []
check_canonicals (cb ∷ cbs) = check_canonical cb ++ check_canonicals cbs

unfoldable pub check_report_flags : List CanonicalBlock → List Error
check_report_flags [] = []
check_report_flags (cb ∷ cbs) =
    (if has cb.block_control_flags status_report_flag then status_report_block ∷ [] else [])
    ++ check_report_flags cbs

-- The two maps hold the numbers and the types of the blocks before.
unfoldable pub check_unique : List ℕ → List ℕ → List CanonicalBlock → List Error
check_unique seen_numbers seen_types [] = []
check_unique seen_numbers seen_types (cb ∷ cbs) =
    (if contains seen_numbers cb.block_number then duplicate_number cb.block_number ∷ [] else [])
    ++ ((if contains seen_types (type_code cb) then duplicate_type (type_code cb) ∷ [] else [])
        ++ check_unique (cb.block_number ∷ seen_numbers) (type_code cb ∷ seen_types) cbs)

-- The type code of the last block of a list that is not empty.
unfoldable pub last_type : CanonicalBlock → List CanonicalBlock → ℕ
last_type cb [] = type_code cb
last_type cb (c ∷ cs) = last_type c cs

unfoldable pub no_reports : PrimaryBlock → Bool
no_reports pb =
    has pb.bundle_control_flags administrative_record_payload || eid_eq pb.source_node dtn_none

-- The checks that assume canonical blocks.
check_present : ℕ → Bundle → CanonicalBlock → List CanonicalBlock → Result (List Error)
check_present now b cb cbs = do
  exceeded ← is_lifetime_exceeded now b
  ok (
      (if no_reports b.primary_block then check_report_flags (cb ∷ cbs) else [])
      ++ (check_unique [] [] (cb ∷ cbs)
          ++ ((if last_type cb cbs == payload_code
                then []
                else last_not_payload (last_type cb cbs) ∷ [])
              ++ ((if is_zero_time b.primary_block.creation_timestamp
                      && not (has_extension_block b bundle_age_code)
                    then no_age_block ∷ []
                    else [])
                  ++ (if exceeded then lifetime_exceeded ∷ [] else [])))))

check_rest : ℕ → Bundle → List CanonicalBlock → Result (List Error)
unfolding check_present
check_rest now b [] = ok (no_canonical_blocks ∷ [])
check_rest now b (cb ∷ cbs) = check_present now b cb cbs

-- Bundle.CheckValid
unfoldable pub check_valid : ℕ → Bundle → Result (List Error)
unfolding check_rest
check_valid now b = do
  rest ← check_rest now b b.canonical_blocks
  ok (check_primary b.primary_block ++ (check_canonicals b.canonical_blocks ++ rest))

-- `return b, b.CheckValid()`: the errors are returned together with the bundle.
unfoldable pub new_bundle : ℕ → PrimaryBlock → List CanonicalBlock → Result (Bundle × List Error)
new_bundle now primary canonicals = do
  let b = must_new_bundle primary canonicals
  errs ← check_valid now b
  ok (b, errs)

-- SetCRCType on every canonical block.
unfoldable pub set_canonical_crc_types : ℕ → List CanonicalBlock → List CanonicalBlock
set_canonical_crc_types t = map (set_crc_type t)
