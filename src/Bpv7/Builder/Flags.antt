-- ===== src/Bpv7/Builder/Flags.antt =====
-- bundle_builder.go: the methods that leave the bundle processing control flags as they are.
use dtn.Prelude.{
  ℕ, ◌≡◌, refl, sym, ap, ◌∙◌, List, Option, none, some, ok, err, panic, ◌==◌, >>=-eq-ok,
  ok-injective, if-elim,
}
use dtn.Prelude.Int.{ℤ}
use dtn.Bpv7.Errors.{Error, Result}
use dtn.Bpv7.Endpoint.{eid_eq}
use dtn.Bpv7.Block.{CanonicalBlock, type_code, payload_code}
use dtn.Bpv7.Primary.{PrimaryBlock}
use dtn.Bpv7.Bundle.{Bundle, new_bundle, must_new_bundle, check_valid}
use dtn.Bpv7.Codec.Endpoint.{no_error}
use dtn.Bpv7.Builder.Built.{build-build_valid}
use dtn.Bpv7.Builder.{
  BundleBuilder, LifetimeArgument, parse_lifetime, set_from, lifetime, add_numbered, canonical,
  reported, build_valid, build, set_primary_crc_type,
}

abbrev flags_of : BundleBuilder → ℕ
flags_of b = b.primary.bundle_control_flags

abbrev set_lifetime : BundleBuilder → ℕ → PrimaryBlock
set_lifetime b ms = record b.primary { lifetime = ms }

set_from-flags :
    (b : BundleBuilder) (r : Result ℕ) → flags_of (set_from b (set_lifetime b) r) ≡ flags_of b
unfolding set_from
set_from-flags b (ok ms) = refl
set_from-flags b (err e) = refl
set_from-flags b panic = refl

unless_error-flags :
    (b next : BundleBuilder) (o : Option Error)
    → flags_of next ≡ flags_of b
    → flags_of (elim o [ none ↦ next | some e ↦ b ]) ≡ flags_of b
unless_error-flags b next none h = h
unless_error-flags b next (some e) h = refl

pub lifetime-flags :
    (parse : List ℕ → Option ℤ) (b : BundleBuilder) (a : LifetimeArgument)
    → flags_of (lifetime parse b a) ≡ flags_of b
unfolding lifetime
lifetime-flags parse b a =
    unless_error-flags b _ b.error (set_from-flags b (parse_lifetime parse a))

pub canonical-flags :
    (b : BundleBuilder) (cb : CanonicalBlock) → flags_of (canonical b cb) ≡ flags_of b
unfolding canonical add_numbered
canonical-flags b cb = unless_error-flags b _ b.error (
    if-elim (λ (x : BundleBuilder). flags_of x ≡ flags_of b) (type_code cb == payload_code) _ _
      (λ _. refl) (λ _. refl))

reported-flags : (pb : PrimaryBlock) → (reported pb).bundle_control_flags ≡ pb.bundle_control_flags
unfolding reported
reported-flags pb =
    if-elim (λ (p : PrimaryBlock). p.bundle_control_flags ≡ pb.bundle_control_flags)
      (eid_eq pb.report_to none) _ _ (λ _. refl) (λ _. refl)

build_valid-flags :
    (now t : ℕ) (pb : PrimaryBlock) (cbs : List CanonicalBlock) {out : Bundle}
    → build_valid now t pb cbs ≡ ok out
    → out.primary_block.bundle_control_flags ≡ pb.bundle_control_flags
unfolding build_valid new_bundle must_new_bundle set_primary_crc_type
build_valid-flags now t pb cbs h =
    let (x, made, rest) = >>=-eq-ok (new_bundle now pb cbs) _ h in
    let (errs, checked, made') = >>=-eq-ok (check_valid now (must_new_bundle pb cbs)) _ made in
    let (u, none_found, eq) = >>=-eq-ok (no_error x.1) _ rest in
    sym (ap (λ p. p.primary_block.bundle_control_flags) (ok-injective eq))
    ∙ sym (ap (λ p. p.0.primary_block.bundle_control_flags) (ok-injective made'))

pub build-flags :
    (now : ℕ) (b : BundleBuilder) {out : Bundle}
    → build now b ≡ ok out
    → out.primary_block.bundle_control_flags ≡ flags_of b
build-flags now b h =
    let (ends, made) = build-build_valid now b h in
    build_valid-flags now b.builder_crc_type (reported b.primary) b.canonicals made
    ∙ reported-flags b.primary
