-- ===== src/Bpv7/Primary/Rules.antt =====
-- PrimaryBlock.CheckValid and BundleControlFlags.CheckValid against the rules of the protocol.
use mathlib.Core.List.{append-eq-nil_iff}
use dtn.Prelude.{
  ℕ, ◌≡◌, ◌↔◌, [], ◌∷◌, Bool, true, false, inl, inr, arith, Bool-cases, ==_iff, if◌then◌else◌,
}
use dtn.Bpv7.Errors.{Error}
use dtn.Bpv7.Flags.{
  has, is_fragment, administrative_record_payload, must_not_fragmented, status_request_reception,
  status_request_forward, status_request_delivery, status_request_deletion, no_status_requests,
  check_flags,
}
use dtn.Bpv7.Endpoint.{dtn_none, eid_eq, eid_eq_refl, eid_eq_sound, check_endpoint}
use dtn.Bpv7.Primary.{PrimaryBlock, source_none_allowed, check_primary}

-- No status report request flag is set.
pub record AsksNothing (bcf : ℕ) : Type 0 where
  pub reception : has bcf status_request_reception ≡ false
  pub forward : has bcf status_request_forward ≡ false
  pub delivery : has bcf status_request_delivery ≡ false
  pub deletion : has bcf status_request_deletion ≡ false

no_status_requests_iff : (bcf : ℕ) → (no_status_requests bcf ≡ true) ↔ AsksNothing bcf
unfolding no_status_requests
no_status_requests_iff bcf = (λ h. ground arith, λ h. ground arith)

pub record FlagRules (bcf : ℕ) : Type 0 where
  pub fragment : has bcf is_fragment ≡ true → has bcf must_not_fragmented ≡ false
  pub administrative : has bcf administrative_record_payload ≡ true → AsksNothing bcf

check_flags_iff : (bcf : ℕ) → (check_flags bcf ≡ []) ↔ FlagRules bcf
unfolding check_flags
check_flags_iff bcf =
    let asks = no_status_requests_iff bcf in
    (
      λ h. record { fragment = λ e. ground arith; administrative = λ e. asks.0 (ground arith) },
      λ r. elim (Bool-cases (has bcf administrative_record_payload)) [
        | inl e ↦ ground (arith, r.fragment, asks.1 (r.administrative e))
        | inr e ↦ ground (arith, r.fragment)
      ],
    )

-- The rules on a primary block.
pub record PrimaryRules (pb : PrimaryBlock) : Type 0 where
  pub version : pb.version ≡ 7
  pub flags : FlagRules pb.bundle_control_flags
  pub destination : check_endpoint pb.destination ≡ []
  pub source : check_endpoint pb.source_node ≡ []
  pub report_to : check_endpoint pb.report_to ≡ []
  pub anonymous :
      pb.source_node ≡ dtn_none
      → (has pb.bundle_control_flags must_not_fragmented ≡ true)
        × AsksNothing pb.bundle_control_flags

if_else_nil_iff : (t : Bool) (x : Error) → ((if t then [] else x ∷ []) ≡ []) ↔ (t ≡ true)
if_else_nil_iff t x = (λ h. ground arith, λ h. rw h)

source_none_allowed_iff :
    (pb : PrimaryBlock)
    → (source_none_allowed pb ≡ true) ↔ (
        pb.source_node ≡ dtn_none
        → (has pb.bundle_control_flags must_not_fragmented ≡ true)
          × AsksNothing pb.bundle_control_flags)
unfolding source_none_allowed
source_none_allowed_iff pb =
    let asks = no_status_requests_iff pb.bundle_control_flags in
    (
      λ h e.
          let same : eid_eq pb.source_node dtn_none ≡ true = rw e (eid_eq_refl dtn_none) in
          (ground arith, asks.0 (ground arith)),
      λ r. elim (Bool-cases (eid_eq pb.source_node dtn_none)) [
        | inl e ↦
            let (must, quiet) = r (eid_eq_sound pb.source_node dtn_none e) in
            ground (arith, asks.1 quiet)
        | inr e ↦ ground arith
      ],
    )

-- CheckValid of a primary block returns no error exactly if it is of version 7, a fragment may be
-- fragmented, an administrative record asks for no status report, the three endpoints are valid, and
-- a bundle whose source is dtn:none must not be fragmented and asks for no status report.
pub check_primary_iff : (pb : PrimaryBlock) → (check_primary pb ≡ []) ↔ PrimaryRules pb
unfolding check_primary
check_primary_iff pb = (
  λ h.
      let (h0, r0) = append-eq-nil_iff.0 h in
      let (h1, r1) = append-eq-nil_iff.0 r0 in
      let (h2, r2) = append-eq-nil_iff.0 r1 in
      let (h3, r3) = append-eq-nil_iff.0 r2 in
      let (h4, h5) = append-eq-nil_iff.0 r3 in
      record {
        version = (==_iff _ 7).0 ((if_else_nil_iff _ _).0 h0);
        flags = (check_flags_iff _).0 h1;
        destination = h2;
        source = h3;
        report_to = h4;
        anonymous = (source_none_allowed_iff pb).0 ((if_else_nil_iff _ _).0 h5);
      },
  λ r.
      let allowed = (source_none_allowed_iff pb).1 r.anonymous in
      let flags = (check_flags_iff pb.bundle_control_flags).1 r.flags in
      let v = (==_iff pb.version 7).1 r.version in
      rw (v, flags, r.destination, r.source, r.report_to, allowed),
)
