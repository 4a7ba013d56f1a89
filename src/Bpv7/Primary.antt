-- ===== src/Bpv7/Primary.antt =====
-- primary_block.go: the primary block and its validity.
pub mod Rules
use dtn.Prelude.{ℕ, List, [], ◌∷◌, ◌++◌, Bool, not, ◌&&◌, ◌||◌, ◌==◌, if◌then◌else◌}
use dtn.Bpv7.Errors.{Error, wrong_version, source_none_flags}
use dtn.Bpv7.Flags.{has, is_fragment, must_not_fragmented, no_status_requests, check_flags}
use dtn.Bpv7.Endpoint.{EndpointId, dtn_none, eid_eq, check_endpoint}
use dtn.Bpv7.Time.{CreationTimestamp}

abbrev pub dtn_version : ℕ
dtn_version = 7

pub record PrimaryBlock : Type 0 where
  pub version : ℕ
  pub bundle_control_flags : ℕ
  pub crc_type : ℕ
  pub destination : EndpointId
  pub source_node : EndpointId
  pub report_to : EndpointId
  pub creation_timestamp : CreationTimestamp
  pub lifetime : ℕ
  pub fragment_offset : ℕ
  pub total_data_length : ℕ
  pub crc : List ℕ

unfoldable pub has_fragmentation : PrimaryBlock → Bool
has_fragmentation pb = has pb.bundle_control_flags is_fragment

unfoldable pub has_crc : PrimaryBlock → Bool
has_crc pb = not (pb.crc_type == 0)

-- `bpcfImpl`: a bundle without a source must not be fragmented and asks for no status report.
unfoldable pub source_none_allowed : PrimaryBlock → Bool
source_none_allowed pb =
    not (eid_eq pb.source_node dtn_none)
    || (has pb.bundle_control_flags must_not_fragmented
        && no_status_requests pb.bundle_control_flags)

-- PrimaryBlock.CheckValid
unfoldable pub check_primary : PrimaryBlock → List Error
check_primary pb =
    (if pb.version == dtn_version then [] else wrong_version pb.version ∷ [])
    ++ (check_flags pb.bundle_control_flags
        ++ (check_endpoint pb.destination
            ++ (check_endpoint pb.source_node
                ++ (check_endpoint pb.report_to
                    ++ (if source_none_allowed pb then [] else source_none_flags ∷ [])))))
