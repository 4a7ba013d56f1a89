-- ===== src/Bpv7/Builder/Built.antt =====
-- bundle_builder.go: what Build returns.
use dtn.Prelude.{
  ℕ, ◌≡◌, refl, sym, ap, ◌∙◌, subst, List, [], ◌∷◌, Option, none, some, true, false, ◌||◌, ok, err,
  ◌==◌, >>=-eq-ok, ok-injective, if◌then◌else◌, if-elim, arith,
}
use dtn.Bpv7.Errors.{Error, Result, builder_endpoints}
use dtn.Bpv7.Endpoint.{EndpointId, eid_eq}
use dtn.Bpv7.Block.{CanonicalBlock}
use dtn.Bpv7.Primary.{PrimaryBlock, has_crc}
use dtn.Bpv7.Bundle.{Bundle, check_valid, must_new_bundle, new_bundle, set_canonical_crc_types}
use dtn.Bpv7.Bundle.Crc.{check_valid-typed}
use dtn.Bpv7.Codec.Endpoint.{no_error}
use dtn.Bpv7.Builder.{BundleBuilder, reported, build_valid, build, set_primary_crc_type}

abbrev Given : EndpointId → Type 0
Given e = eid_eq e none ≡ false

build_of :
    (now : ℕ) (b : BundleBuilder) (o : Option Error) {out : Bundle}
    → ◌≡◌ {A = Result Bundle}
        (elim o [
          | some e ↦ err e
          | none ↦
              if eid_eq b.primary.source_node none || eid_eq b.primary.destination none
              then err builder_endpoints
              else build_valid now b.builder_crc_type (reported b.primary) b.canonicals
        ])
        (ok out)
    → (Given b.primary.source_node × Given b.primary.destination)
      × (build_valid now b.builder_crc_type (reported b.primary) b.canonicals ≡ ok out)
build_of now b (some e) h = cc
build_of now b none {out} h =
    if-elim
      (λ r.
        r ≡ ok out
        → (Given b.primary.source_node × Given b.primary.destination)
          × (build_valid now b.builder_crc_type (reported b.primary) b.canonicals ≡ ok out))
      (eid_eq b.primary.source_node none || eid_eq b.primary.destination none) _ _ (λ _ e. cc)
      (λ ends e. ((ground (arith, ends), ground (arith, ends)), e)) h

pub build-build_valid :
    (now : ℕ) (b : BundleBuilder) {out : Bundle}
    → build now b ≡ ok out
    → (Given b.primary.source_node × Given b.primary.destination)
      × (build_valid now b.builder_crc_type (reported b.primary) b.canonicals ≡ ok out)
unfolding build
build-build_valid now b h = build_of now b b.error h

valid_unless : (es : List Error) {u : Unit {0}} → no_error es ≡ ok u → es ≡ []
valid_unless [] h = refl
valid_unless (e ∷ es) h = cc

-- What a bundle from Build is like.
pub record IsBuilt (now : ℕ) (out : Bundle) : Type 0 where
  pub valid : check_valid now out ≡ ok []
  pub protected : has_crc out.primary_block ≡ true
  pub from_given : Given out.primary_block.source_node
  pub to_given : Given out.primary_block.destination
  pub report_given : Given out.primary_block.report_to

reported-Given : (pb : PrimaryBlock) → Given pb.source_node → Given (reported pb).report_to
unfolding reported
reported-Given pb h =
    if-elim (λ (p : PrimaryBlock). Given p.report_to) (eid_eq pb.report_to none) _ _ (λ _. h)
      (λ e. e)

reported-source : (pb : PrimaryBlock) → (reported pb).source_node ≡ pb.source_node
unfolding reported
reported-source pb =
    if-elim (λ (p : PrimaryBlock). p.source_node ≡ pb.source_node) (eid_eq pb.report_to none) _ _
      (λ _. refl) (λ _. refl)

reported-destination : (pb : PrimaryBlock) → (reported pb).destination ≡ pb.destination
unfolding reported
reported-destination pb =
    if-elim (λ (p : PrimaryBlock). p.destination ≡ pb.destination) (eid_eq pb.report_to none) _ _
      (λ _. refl) (λ _. refl)

protected_lem : (t : ℕ) (pb : PrimaryBlock) → has_crc (set_primary_crc_type t pb) ≡ true
unfolding has_crc set_primary_crc_type
protected_lem t pb = ground arith

build_valid-IsBuilt :
    (now t : ℕ) (pb : PrimaryBlock) (cbs : List CanonicalBlock) {out : Bundle}
    → Given pb.source_node
    → Given pb.destination
    → Given pb.report_to
    → build_valid now t pb cbs ≡ ok out
    → IsBuilt now out
unfolding build_valid new_bundle must_new_bundle set_primary_crc_type
build_valid-IsBuilt now t pb cbs from to report h =
    let (x, made, rest) = >>=-eq-ok (new_bundle now pb cbs) _ h in
    let (errs, checked, made') = >>=-eq-ok (check_valid now (must_new_bundle pb cbs)) _ made in
    let (u, none_found, eq) = >>=-eq-ok (no_error x.1) _ rest in
    let same = ok-injective made' in
    let no_errors : errs ≡ [] = ap (λ p. p.1) same ∙ valid_unless x.1 none_found in
    subst (IsBuilt now)
      (ap
          (λ (b : Bundle). record {
            primary_block = set_primary_crc_type t b.primary_block;
            canonical_blocks = set_canonical_crc_types t b.canonical_blocks;
          })
          (ap (λ p. p.0) same)
        ∙ ok-injective eq)
      record {
        valid =
            check_valid-typed t now (if t == 0 then 2 else t) pb
              (must_new_bundle pb cbs).canonical_blocks
            ∙ (checked ∙ ap ok no_errors);
        protected = protected_lem t pb;
        from_given = from;
        to_given = to;
        report_given = report;
      }

-- A bundle that Build returns without an error is valid, its primary block has a CRC whatever type of CRC
-- was asked for, and none of its source, its destination and the endpoint for reports is left out.
pub build-IsBuilt :
    (now : ℕ) (b : BundleBuilder) {out : Bundle} → build now b ≡ ok out → IsBuilt now out
build-IsBuilt now b h =
    let ((from, to), made) = build-build_valid now b h in
    build_valid-IsBuilt now b.builder_crc_type (reported b.primary) b.canonicals
      (subst Given (sym (reported-source b.primary)) from)
      (subst Given (sym (reported-destination b.primary)) to) (reported-Given b.primary from) made
