-- ===== src/Bpv7/AdministrativeRecord/Reports.antt =====
-- administrative_record_status_report.go: the reports that NewStatusReport makes.
use dtn.Prelude.{
  ℕ, ◌<◌, ◌≤◌, ◌≡◌, refl, List, [], ◌∷◌, ◌++◌, Bool, true, false, ◌&&◌, ok, ◌>>=◌, arith, ◌==◌,
  if◌then◌else◌, if-elim,
}
use dtn.Prelude.Int.{u64_mod}
use dtn.Bpv7.Endpoint.{EndpointType}
use dtn.Bpv7.Flags.{has}
use dtn.Bpv7.Bundle.{Bundle, bundle_id}
use dtn.Bpv7.Codec.{Cbor, CborLaws}
use dtn.Bpv7.AdministrativeRecord.{
  Booleans, BooleanLaws, new_bundle_status_item, new_time_reporting_item, request_status_time,
  item_at, new_status_report, asserted_from, status_informations, write_administrative_record,
  read_administrative_record,
}
use dtn.Bpv7.AdministrativeRecord.Ids.{IsWritableId}
use dtn.Bpv7.AdministrativeRecord.RoundTrip.{
  IsItem, plain, timed, IsReportable, read-write_administrative_record,
}

item_at-IsItem :
    (b : Bundle) (position time i : ℕ) → time < u64_mod → IsItem (item_at b position time i)
unfolding item_at new_bundle_status_item new_time_reporting_item
item_at-IsItem b position time i small =
    if-elim IsItem (i == position && has b.primary_block.bundle_control_flags request_status_time) _
      _ (λ _. timed time small)
      (λ _. if-elim IsItem (i == position) _ _ (λ _. plain true) (λ _. plain false))

asserted_of :
    (here timely : Bool) (time : ℕ)
    → (if here && timely
        then new_time_reporting_item time
        else if here
        then new_bundle_status_item true
        else new_bundle_status_item false).asserted
      ≡ here
unfolding new_bundle_status_item new_time_reporting_item
asserted_of true true time = refl
asserted_of true false time = refl
asserted_of false timely time = refl

item_at-asserted :
    (b : Bundle) (position time i : ℕ) → (item_at b position time i).asserted ≡ (i == position)
unfolding item_at
item_at-asserted b position time i =
    asserted_of (i == position) (has b.primary_block.bundle_control_flags request_status_time) time

-- The positions up to 3 that are the given one.
abbrev positions : ℕ → List ℕ
positions p =
    let three = if 3 == p then 3 ∷ [] else [] in
    let two = if 2 == p then 2 ∷ three else three in
    let one = if 1 == p then 1 ∷ two else two in if 0 == p then 0 ∷ one else one

positions_lem : (p : ℕ) → p < 4 → positions p ≡ p ∷ []
positions_lem p small = ground arith

new_status_report-informations :
    (b : Bundle) (position reason time : ℕ)
    → position < 4
    → status_informations (new_status_report b position reason time) ≡ position ∷ []
unfolding status_informations asserted_from new_status_report
new_status_report-informations b position reason time small =
    rw
      (
        item_at-asserted b position time 0,
        item_at-asserted b position time 1,
        item_at-asserted b position time 2,
        item_at-asserted b position time 3,
      )
      (positions_lem position small)

reportable :
    (source : EndpointType) (limit : ℕ) (b : Bundle) (position reason time : ℕ)
    → 4 ≤ limit
    → reason < u64_mod
    → time < u64_mod
    → IsWritableId source (bundle_id b)
    → IsReportable source limit (new_status_report b position reason time)
unfolding new_status_report
reportable source limit b position reason time room word small id = record {
  items = (
    item_at-IsItem b position time 0 small,
    (
      item_at-IsItem b position time 1 small,
      (item_at-IsItem b position time 2 small, (item_at-IsItem b position time 3 small, tt)),
    ),
  );
  count = omega arith;
  limited = room;
  reason = word;
  id = id;
}

module _ (cbor : Cbor) (laws : CborLaws cbor) (booleans : Booleans)
    (boolean_laws : BooleanLaws booleans) where
  -- If the CBOR library reads back what it writes, four items can be allocated, the reason and the time
  -- are words, and the bundle's ID has a parsed source, words in its fields, and zero in the last two unless
  -- it is a fragment's: the report of a bundle for one of the four positions is written as
  -- a record and read back as it is, what follows is left, and it asserts this position and no other.
  pub new_status_report-Arrives :
      (source : EndpointType) (limit : ℕ) (b : Bundle) (position reason time : ℕ) (rest : List ℕ)
      → 4 ≤ limit
      → position < 4
      → reason < u64_mod
      → time < u64_mod
      → IsWritableId source (bundle_id b)
      → ((write_administrative_record cbor booleans (new_status_report b position reason time)
            >>= λ bytes. read_administrative_record cbor booleans limit (bytes ++ rest))
          ≡ ok (new_status_report b position reason time, rest))
        × (status_informations (new_status_report b position reason time) ≡ position ∷ [])
  new_status_report-Arrives source limit b position reason time rest room known_position word small
        id =
      (
        read-write_administrative_record cbor laws booleans boolean_laws source limit _ rest
            (reportable source limit b position reason time room word small id),
        new_status_report-informations b position reason time known_position,
      )
