-- ===== src/Bpv7/Errors.antt =====
-- The errors that pkg/bpv7 returns, a constructor for each message that is told apart.
use dtn.Prelude.{ℕ, Run}

pub data Error : Type 0 where
  -- CheckValid
  fragment_and_must_not_fragmented admin_record_status_request : Error
  wrong_version : ℕ → Error
  endpoint_nil dtn_regexp ipn_zero source_none_flags hop_count_exceeded : Error
  payload_number : ℕ → Error
  no_canonical_blocks status_report_block : Error
  duplicate_number duplicate_type last_not_payload : ℕ → Error
  no_age_block lifetime_exceeded : Error
  -- look-up, fragmentation and reassembly
  no_block no_file : ℕ → Error
  fragmentation_forbidden no_fragments not_fragment : Error
  overhead_exceeds_mtu : ℕ → Error
  gap : ℕ → ℕ → Error
  wrong_total : ℕ → ℕ → Error
  -- serialization: an error of the CBOR library, the break code in place of an array, or one of the
  -- checks of this package
  cbor : ℕ → Error
  break_flag : Error
  array_length unknown_crc_type unknown_scheme hop_count_range major_type unsupported_version :
      ℕ → Error
  ssp_mismatch text_dtn_none invalid_crc : Error
  -- the value of a block of some type, whatever its error
  block_value : ℕ → Error
  -- administrative records: a record of an unknown type, or the value of one, whatever its error
  not_stored too_deep not_registered : Error
  unknown_record_type record_value : ℕ → Error
  -- the bundle builder: an argument of a wrong type or value, and endpoints that are not set
  builder_argument builder_endpoints : Error

abbrev pub Result {ℓ} : Type ℓ → Type ℓ
Result A = Run Error A
