-- ===== src/Bpv7/Bundle/Crc.antt =====
-- bundle.go and bundle_builder.go: the types of CRC do not matter to CheckValid.
use dtn.Prelude.{
  ℕ, ◌≡◌, refl, ap, List, [], ◌∷◌, ◌++◌, map, Option, none, some, ◌==◌, inl, inr, Bool-cases,
}
use mathlib.Core.Option
use dtn.Bpv7.Block.{CanonicalBlock, bundle_age_code, type_code, set_crc_type, check_canonical}
use dtn.Bpv7.Primary.{PrimaryBlock, check_primary, source_none_allowed}
use dtn.Bpv7.Bundle.{
  Bundle, find_block, is_some, has_extension_block, assert_age, age_exceeded, is_lifetime_exceeded,
  check_canonicals, check_report_flags, check_unique, last_type, no_reports, check_present,
  check_rest, check_valid, set_canonical_crc_types,
}

module _ (t : ℕ) where
  abbrev typed : List CanonicalBlock → List CanonicalBlock
  typed = map (set_crc_type t)

  check_canonicals-typed :
      (cbs : List CanonicalBlock) → check_canonicals (typed cbs) ≡ check_canonicals cbs
  unfolding check_canonicals check_canonical type_code set_crc_type
  check_canonicals-typed [] = refl
  check_canonicals-typed (cb ∷ cbs) =
      ap (λ es. check_canonical cb ++ es) (check_canonicals-typed cbs)

  check_report_flags-typed :
      (cbs : List CanonicalBlock) → check_report_flags (typed cbs) ≡ check_report_flags cbs
  unfolding check_report_flags set_crc_type
  check_report_flags-typed [] = refl
  check_report_flags-typed (cb ∷ cbs) = rw (check_report_flags-typed cbs) refl

  check_unique-typed :
      (ns ts : List ℕ) (cbs : List CanonicalBlock)
      → check_unique ns ts (typed cbs) ≡ check_unique ns ts cbs
  unfolding check_unique type_code set_crc_type
  check_unique-typed ns ts [] = refl
  check_unique-typed ns ts (cb ∷ cbs) =
      rw (check_unique-typed (cb.block_number ∷ ns) (type_code cb ∷ ts) cbs) refl

  last_type-typed :
      (cb : CanonicalBlock) (cbs : List CanonicalBlock)
      → last_type (set_crc_type t cb) (typed cbs) ≡ last_type cb cbs
  unfolding last_type type_code set_crc_type
  last_type-typed cb [] = refl
  last_type-typed cb (c ∷ cs) = last_type-typed c cs

  find_block-typed :
      (code : ℕ) (cbs : List CanonicalBlock)
      → find_block code (typed cbs) ≡ Option.map (set_crc_type t) (find_block code cbs)
  unfolding find_block type_code set_crc_type
  find_block-typed code [] = refl
  find_block-typed code (cb ∷ cbs) = elim (Bool-cases (type_code cb == code)) [
    | inl same ↦ rw same refl
    | inr other ↦ rw other (find_block-typed code cbs)
  ]

  is_some-typed : (o : Option CanonicalBlock) → is_some (Option.map (set_crc_type t) o) ≡ is_some o
  is_some-typed none = refl
  is_some-typed (some cb) = refl

  age_exceeded-typed :
      (lifetime : ℕ) (o : Option CanonicalBlock)
      → age_exceeded lifetime (Option.map (set_crc_type t) o) ≡ age_exceeded lifetime o
  unfolding age_exceeded assert_age set_crc_type
  age_exceeded-typed lifetime none = refl
  age_exceeded-typed lifetime (some cb) = refl

  -- A bundle with other types of CRC.
  abbrev retyped : ℕ → PrimaryBlock → List CanonicalBlock → Bundle
  retyped p pb cbs = record {
    primary_block = record pb { crc_type = p };
    canonical_blocks = typed cbs;
  }

  check_rest-typed :
      (now p : ℕ) (pb : PrimaryBlock) (cbs : List CanonicalBlock)
      → check_rest now (retyped p pb cbs) (typed cbs)
        ≡ check_rest now (record { primary_block = pb; canonical_blocks = cbs }) cbs
  unfolding check_rest check_present is_lifetime_exceeded has_extension_block no_reports
  check_rest-typed now p pb [] = refl
  check_rest-typed now p pb (cb ∷ cbs) =
      rw
        (
          find_block-typed bundle_age_code (cb ∷ cbs),
          age_exceeded-typed pb.lifetime (find_block bundle_age_code (cb ∷ cbs)),
          is_some-typed (find_block bundle_age_code (cb ∷ cbs)),
          check_report_flags-typed (cb ∷ cbs),
          check_unique-typed [] [] (cb ∷ cbs),
          last_type-typed cb cbs,
        )
        refl

  -- SetCRCType changes nothing about the validity.
  pub check_valid-typed :
      (now p : ℕ) (pb : PrimaryBlock) (cbs : List CanonicalBlock)
      → check_valid now (record {
        primary_block = record pb { crc_type = p };
        canonical_blocks = set_canonical_crc_types t cbs;
      })
        ≡ check_valid now (record { primary_block = pb; canonical_blocks = cbs })
  unfolding check_valid check_primary source_none_allowed set_canonical_crc_types
  check_valid-typed now p pb cbs =
      rw (check_rest-typed now p pb cbs, check_canonicals-typed cbs) refl
