-- ===== src/Bpv7/AdministrativeRecord/Tests.antt =====
-- The report of a fragment that was forwarded, and an ID with a time.
use dtn.Prelude.{
  ℕ, ◌≡◌, refl, List, [], ◌∷◌, ◌++◌, Bool, true, false, ok, err, ◌>>=◌, arith, ◌==◌, if◌then◌else◌,
}
use dtn.Bpv7.Errors.{Result, major_type}
use dtn.Bpv7.Flags.{has}
use dtn.Bpv7.Bundle.{Bundle, bundle_id}
use dtn.Bpv7.Codec.Tests.{tagged, tagged-CborLaws, service, service-IsParsed, fragment_primary}
use dtn.Bpv7.AdministrativeRecord.{
  Booleans, BooleanLaws, new_status_report, status_informations, write_administrative_record,
  read_administrative_record,
}
use dtn.Bpv7.AdministrativeRecord.Ids.{IsWritableId}
use dtn.Bpv7.AdministrativeRecord.Reports.{new_status_report-Arrives}

abbrev read_flag : List ℕ → Result (Bool × List ℕ)
read_flag [] = err (major_type 7)
read_flag (b ∷ r) = ok (b == 21, r)

abbrev pub flags : Booleans
flags = record { write_boolean = λ b. (if b then 21 else 20) ∷ []; read_boolean = read_flag }

flag_back : (b : Bool) (rest : List ℕ) → read_flag ((if b then 21 else 20) ∷ rest) ≡ ok (b, rest)
flag_back true rest = refl
flag_back false rest = refl

flags-BooleanLaws : BooleanLaws flags
flags-BooleanLaws = record { boolean_back = flag_back }

abbrev forwarded : Bundle
forwarded = record { primary_block = fragment_primary; canonical_blocks = [] }

forwarded_id : IsWritableId service (bundle_id forwarded)
unfolding bundle_id has
forwarded_id = record {
  parsed = (refl, service-IsParsed);
  dtn_time = omega arith;
  sequence = omega arith;
  offset = omega arith;
  total = omega arith;
  no_fragment = λ e. absurd cc;
}

new_status_report-Arrives_example :
    ((write_administrative_record tagged flags (new_status_report forwarded 1 0 77) >>= λ bytes.
    read_administrative_record tagged flags 16 (bytes ++ 9 ∷ []))
      ≡ ok (new_status_report forwarded 1 0 77, 9 ∷ []))
    × (status_informations (new_status_report forwarded 1 0 77) ≡ 1 ∷ [])
new_status_report-Arrives_example =
    new_status_report-Arrives tagged tagged-CborLaws flags flags-BooleanLaws service 16 forwarded 1
      0 77 (9 ∷ []) (omega arith) (omega arith) (omega arith) (omega arith) forwarded_id
