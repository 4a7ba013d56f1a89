-- ===== src/Bpv7/Builder.antt =====
-- bundle_builder.go: BundleBuilder. An argument of type interface{} is a data type with the types that
-- the method tells apart. `parse` is time.ParseDuration, in nanoseconds. BuildFromMap, and a lifetime
-- that is a float64, are not modelled.
pub mod Built
pub mod Flags
mod Tests
use dtn.Prelude.{
  ℕ, ◌+◌, ◌-◌, ◌/◌, ◌%◌, ◌^◌, List, [], ◌∷◌, ◌++◌, map, Option, none, some, Bool, true, false, not,
  ◌&&◌, ◌||◌, ok, err, panic, ◌>>=◌, ◌>>◌, ◌==◌, bit_and, bit_or, if◌then◌else◌,
}
use dtn.Prelude.Int.{ℤ, pos, negsuc, u64_mod}
use dtn.Bpv7.Errors.{Error, Result, builder_argument, builder_endpoints}
use dtn.Bpv7.Flags.{administrative_record_payload, status_request_delivery, replicate_block}
use dtn.Bpv7.Endpoint.{EndpointType, EndpointId, eid_eq}
use dtn.Bpv7.Uri.{new_endpoint_id}
use dtn.Bpv7.Block.{
  ExtensionBlock, CanonicalBlock, payload, bundle_age, hop_count, previous_node, new_hop_count,
  new_canonical_block, payload_code, block_type_code, type_code,
}
use dtn.Bpv7.Primary.{PrimaryBlock, dtn_version}
use dtn.Bpv7.Bundle.{Bundle, new_bundle, set_canonical_crc_types}
use dtn.Bpv7.Codec.{Cbor}
use dtn.Bpv7.Codec.Endpoint.{no_error}
use dtn.Bpv7.AdministrativeRecord.{
  Booleans, StatusReport, new_status_report, write_administrative_record,
}

pub record BundleBuilder : Type 0 where
  pub error : Option Error
  pub primary : PrimaryBlock
  pub canonicals : List CanonicalBlock
  pub canonical_counter : ℕ
  pub builder_crc_type : ℕ

-- An argument that is an EndpointID, a text, or of another type.
pub data EndpointArgument : Type 0 where
  eid : EndpointId → EndpointArgument
  uri : List ℕ → EndpointArgument
  no_endpoint : EndpointArgument

abbrev zero_primary : PrimaryBlock
zero_primary = record {
  version = dtn_version;
  bundle_control_flags = status_request_delivery;
  crc_type = 0;
  destination = none;
  source_node = none;
  report_to = none;
  creation_timestamp = record { dtn_time = 0; sequence_number = 0 };
  lifetime = 0;
  fragment_offset = 0;
  total_data_length = 0;
  crc = [];
}

-- Builder
unfoldable pub builder : BundleBuilder
builder = record {
  error = none;
  primary = zero_primary;
  canonicals = [];
  canonical_counter = 2;
  builder_crc_type = 0;
}

-- A lifetime: uint64, int, time.Duration in nanoseconds, a text, or another type.
pub data LifetimeArgument : Type 0 where
  milliseconds : ℕ → LifetimeArgument
  number duration : ℤ → LifetimeArgument
  duration_text : List ℕ → LifetimeArgument
  no_lifetime : LifetimeArgument

-- The optional second argument of the methods for blocks.
pub data FlagsArgument : Type 0 where
  no_flags : FlagsArgument
  flags : ℕ → FlagsArgument
  wrong_flags : FlagsArgument

parsed : Option EndpointType → Result EndpointId
parsed none = err builder_argument
parsed (some e) = ok (some e)

-- bldrParseEndpoint
unfoldable pub parse_endpoint : EndpointArgument → Result EndpointId
unfolding parsed
parse_endpoint (eid e) = ok e
parse_endpoint (uri t) = parsed (new_endpoint_id t)
parse_endpoint no_endpoint = err builder_argument

-- Nanoseconds divided by 1000000 towards zero, as a 64-bit word.
unfoldable pub to_milliseconds : ℤ → ℕ
to_milliseconds (pos n) = n / 1000000
to_milliseconds (negsuc n) = (u64_mod - (n + 1) / 1000000) % u64_mod

positive_duration : Option ℤ → Result ℕ
positive_duration none = err builder_argument
positive_duration (some (pos n)) = if n == 0 then err builder_argument else ok (n / 1000000)
positive_duration (some (negsuc n)) = err builder_argument

-- bldrParseLifetime
unfoldable pub parse_lifetime : (List ℕ → Option ℤ) → LifetimeArgument → Result ℕ
unfolding positive_duration
parse_lifetime parse (milliseconds ms) = ok ms
parse_lifetime parse (number (pos n)) = ok n
parse_lifetime parse (number (negsuc n)) = err builder_argument
parse_lifetime parse (duration d) = ok (to_milliseconds d)
parse_lifetime parse (duration_text t) = positive_duration (parse t)
parse_lifetime parse no_lifetime = err builder_argument

-- A method does nothing once there is an error.
abbrev unless_error : BundleBuilder → BundleBuilder → BundleBuilder
unless_error b next = elim b.error [ none ↦ next | some e ↦ b ]

abbrev failed_with : BundleBuilder → Error → BundleBuilder
failed_with b e = record b { error = some e }

-- A field set from a result, or the error.
unfoldable pub set_from :
    {A : Type 0} → BundleBuilder → (A → PrimaryBlock) → Result A → BundleBuilder
set_from b field (ok a) = record b { primary = field a }
set_from b field (err e) = failed_with b e
set_from b field panic = b

unfoldable pub crc : BundleBuilder → ℕ → BundleBuilder
crc b t = unless_error b (record b { builder_crc_type = t })

unfoldable pub destination : BundleBuilder → EndpointArgument → BundleBuilder
unfolding set_from
destination b a =
    unless_error b (set_from b (λ e. record b.primary { destination = e }) (parse_endpoint a))

unfoldable pub source : BundleBuilder → EndpointArgument → BundleBuilder
unfolding set_from
source b a =
    unless_error b (set_from b (λ e. record b.primary { source_node = e }) (parse_endpoint a))

unfoldable pub report_to : BundleBuilder → EndpointArgument → BundleBuilder
unfolding set_from
report_to b a =
    unless_error b (set_from b (λ e. record b.primary { report_to = e }) (parse_endpoint a))

unfoldable pub creation_timestamp : BundleBuilder → ℕ → BundleBuilder
creation_timestamp b t = unless_error b record b {
  primary = record b.primary { creation_timestamp = record { dtn_time = t; sequence_number = 0 } };
}

unfoldable pub lifetime : (List ℕ → Option ℤ) → BundleBuilder → LifetimeArgument → BundleBuilder
unfolding set_from
lifetime parse b a =
    unless_error b (set_from b (λ ms. record b.primary { lifetime = ms }) (parse_lifetime parse a))

unfoldable pub bundle_ctrl_flags : BundleBuilder → ℕ → BundleBuilder
bundle_ctrl_flags b bcf =
    unless_error b (record b { primary = record b.primary { bundle_control_flags = bcf } })

-- A block under its number: 1 for a payload block, the next count for any other.
unfoldable pub add_numbered : BundleBuilder → CanonicalBlock → BundleBuilder
add_numbered b cb =
    if type_code cb == payload_code
    then record b { canonicals = b.canonicals ++ record cb { block_number = 1 } ∷ [] }
    else record b {
      canonicals = b.canonicals ++ record cb { block_number = b.canonical_counter } ∷ [];
      canonical_counter = (b.canonical_counter + 1) % u64_mod;
    }

-- Canonical with a CanonicalBlock.
unfoldable pub canonical : BundleBuilder → CanonicalBlock → BundleBuilder
canonical b cb = unless_error b (add_numbered b cb)

add_extension : BundleBuilder → ExtensionBlock → FlagsArgument → BundleBuilder
add_extension b value no_flags = add_numbered b (new_canonical_block 0 0 value)
add_extension b value (flags bcf) = add_numbered b (new_canonical_block 0 bcf value)
add_extension b value wrong_flags = failed_with b builder_argument

-- Canonical with an ExtensionBlock and optional flags.
unfoldable pub canonical_extension : BundleBuilder → ExtensionBlock → FlagsArgument → BundleBuilder
unfolding add_extension
canonical_extension b value a = unless_error b (add_extension b value a)

-- canonicalParseFlags, with ReplicateBlock set. It is given all arguments as a single one, and so finds
-- no flags among them.
replicated : FlagsArgument → FlagsArgument
replicated a = flags replicate_block

from_argument :
    {A : Type 0} → BundleBuilder → FlagsArgument → (A → ExtensionBlock) → Result A → BundleBuilder
from_argument b a value (ok x) = canonical_extension b (value x) (replicated a)
from_argument b a value (err e) = failed_with b e
from_argument b a value panic = b

unfoldable pub bundle_age_block :
    (List ℕ → Option ℤ) → BundleBuilder → LifetimeArgument → FlagsArgument → BundleBuilder
unfolding from_argument replicated
bundle_age_block parse b age a =
    unless_error b (from_argument b a bundle_age (parse_lifetime parse age))

-- uint8 of an int.
unfoldable pub to_byte : ℤ → ℕ
to_byte (pos n) = n % 256
to_byte (negsuc n) = 255 - n % 256

unfoldable pub hop_count_block : BundleBuilder → Option ℤ → FlagsArgument → BundleBuilder
unfolding from_argument replicated
hop_count_block b limit a = unless_error b (
    from_argument b a (λ n. hop_count (new_hop_count (to_byte n)))
      (elim limit [ some n ↦ ok n | none ↦ err builder_argument ]))

unfoldable pub previous_node_block :
    BundleBuilder → EndpointArgument → FlagsArgument → BundleBuilder
unfolding from_argument replicated
previous_node_block b e a = unless_error b (from_argument b a previous_node (parse_endpoint e))

-- PayloadBlock; binary.Write gives the octets of the argument, or an error.
unfoldable pub payload_block : BundleBuilder → Option (List ℕ) → FlagsArgument → BundleBuilder
payload_block b none a = failed_with b builder_argument
payload_block b (some octets) a = canonical_extension b (payload octets) a

-- `&^ (StatusRequestReception | StatusRequestForward | StatusRequestDelivery | StatusRequestDeletion)`
abbrev no_requests : ℕ
no_requests = 0xfffffffffff8bfff

record_payload : BundleBuilder → Result (List ℕ) → BundleBuilder
record_payload b (ok octets) =
    payload_block
      (record b {
        primary = record b.primary {
          bundle_control_flags =
              bit_and (bit_or b.primary.bundle_control_flags administrative_record_payload)
                no_requests;
        };
      })
      (some octets) no_flags
record_payload b (err e) = failed_with b e
record_payload b panic = b

module _ (cbor : Cbor) (booleans : Booleans) where
  -- AdministrativeRecord, for a status report.
  unfoldable pub administrative_record : BundleBuilder → StatusReport → BundleBuilder
  unfolding record_payload
  administrative_record b sr =
      unless_error b (record_payload b (write_administrative_record cbor booleans sr))

  -- StatusReport, with arguments of the right types.
  unfoldable pub status_report : BundleBuilder → Bundle → ℕ → ℕ → ℕ → BundleBuilder
  status_report b bundle position reason time =
      unless_error b (administrative_record b (new_status_report bundle position reason time))

-- PrimaryBlock.SetCRCType, but for the calculated CRC, which any writing sets anew.
unfoldable pub set_primary_crc_type : ℕ → PrimaryBlock → PrimaryBlock
set_primary_crc_type t pb = record pb { crc_type = if t == 0 then 2 else t }

-- The primary block that Build uses.
unfoldable pub reported : PrimaryBlock → PrimaryBlock
reported pb = if eid_eq pb.report_to none then record pb { report_to = pb.source_node } else pb

unfoldable pub build_valid : ℕ → ℕ → PrimaryBlock → List CanonicalBlock → Result Bundle
build_valid now t pb cbs = do
  (bundle, errs) ← new_bundle now pb cbs
  no_error errs
  ok record {
    primary_block = set_primary_crc_type t bundle.primary_block;
    canonical_blocks = set_canonical_crc_types t bundle.canonical_blocks;
  }

-- Build
unfoldable pub build : ℕ → BundleBuilder → Result Bundle
unfolding build_valid
build now b = elim b.error [
  | some e ↦ err e
  | none ↦
      if eid_eq b.primary.source_node none || eid_eq b.primary.destination none
      then err builder_endpoints
      else build_valid now b.builder_crc_type (reported b.primary) b.canonicals
]
