-- ===== src/Routing/IdKeeper.antt =====
-- id_keeper.go: the sequence numbers of the bundles that a node creates. `now` is the DTN time that
-- DtnTimeNow returns, in milliseconds.
use dtn.Prelude.{
  ℕ, ◌+◌, ◌-◌, ◌*◌, ◌%◌, ◌≡◌, refl, sym, ap, ap₂, ◌∙◌, List, [], ◌∷◌, Option, none, some, Bool,
  true, false, not, ◌&&◌, inl, inr, arith, All, Bool-cases, ltb, ◌==◌, if◌then◌else◌,
}
use dtn.Prelude.Int.{u64_mod}
use dtn.Bpv7.Endpoint.{EndpointId, eid_eq, eid_eq_refl, eid_eq_sound}
use dtn.Bpv7.Bundle.{Bundle}

pub record IdTuple : Type 0 where
  pub source : EndpointId
  pub time : ℕ

pub record IdKeeper : Type 0 where
  pub ids : IdTuple → Option ℕ
  pub auto_clean : Bool

unfoldable pub new_id_tuple : Bundle → IdTuple
new_id_tuple b = record {
  source = b.primary_block.source_node;
  time = b.primary_block.creation_timestamp.dtn_time;
}

unfoldable pub new_id_keeper : IdKeeper
new_id_keeper = record { ids = λ tpl. none; auto_clean = true }

unfoldable pub same_tuple : IdTuple → IdTuple → Bool
same_tuple a b = eid_eq a.source b.source && a.time == b.time

-- The threshold is an unsigned 64-bit difference.
unfoldable pub is_old : ℕ → IdTuple → Bool
is_old now tpl = ltb tpl.time ((now + u64_mod - 60 * 60 * 24) % u64_mod) && not (tpl.time == 0)

unfoldable pub clean : ℕ → IdKeeper → IdKeeper
clean now k = record k { ids = λ tpl. if is_old now tpl then none else k.ids tpl }

-- The number that the next bundle with a tuple gets.
unfoldable pub next_id : IdKeeper → IdTuple → ℕ
next_id k tpl = elim (k.ids tpl) [ some n ↦ (n + 1) % u64_mod | none ↦ 0 ]

unfoldable pub with_sequence : Bundle → ℕ → Bundle
with_sequence b n = record b {
  primary_block = record b.primary_block {
    creation_timestamp = record b.primary_block.creation_timestamp { sequence_number = n };
  };
}

unfoldable pub update : ℕ → IdKeeper → Bundle → IdKeeper × Bundle
update now k b =
    let tpl = new_id_tuple b in
    let n = next_id k tpl in
    let k' : IdKeeper = record k {
      ids = λ other. if same_tuple other tpl then some n else k.ids other;
    } in
    (if k.auto_clean then clean now k' else k', with_sequence b n)

-- The bundles that a sequence of calls of update leaves, each call at its own time.
unfoldable pub update_all : IdKeeper → List (ℕ × Bundle) → List Bundle
update_all k [] = []
update_all k ((now, b) ∷ calls) = let (k', b') = update now k b in b' ∷ update_all k' calls

-- The sequence numbers of the bundles with one tuple.
unfoldable pub sequences : IdTuple → List Bundle → List ℕ
sequences tpl [] = []
sequences tpl (b ∷ bs) =
    if same_tuple tpl (new_id_tuple b)
    then b.primary_block.creation_timestamp.sequence_number ∷ sequences tpl bs
    else sequences tpl bs

unfoldable pub count_from : ℕ → IdTuple → List (ℕ × Bundle) → List ℕ
count_from n tpl [] = []
count_from n tpl ((now, b) ∷ calls) =
    if same_tuple tpl (new_id_tuple b)
    then n ∷ count_from ((n + 1) % u64_mod) tpl calls
    else count_from n tpl calls

same_tuple_refl : (t : IdTuple) → same_tuple t t ≡ true
unfolding same_tuple
same_tuple_refl t = ground (arith, eid_eq_refl t.source)

same_tuple_sound : (s t : IdTuple) → same_tuple s t ≡ true → s ≡ t
unfolding same_tuple
same_tuple_sound s t h =
    let source = eid_eq_sound s.source t.source (ground arith) in
    let time : s.time ≡ t.time = ground arith in λ i. record { source = source i; time = time i }

-- What update leaves for a tuple that is not old.
next_id-update :
    (now : ℕ) (k : IdKeeper) (b : Bundle) (tpl : IdTuple)
    → is_old now tpl ≡ false
    → next_id (update now k b).0 tpl ≡ (
        if same_tuple tpl (new_id_tuple b)
        then (next_id k (new_id_tuple b) + 1) % u64_mod
        else next_id k tpl)
unfolding update clean next_id
next_id-update now k b tpl young = elim (Bool-cases (same_tuple tpl (new_id_tuple b))) [
  | inl e ↦ elim (Bool-cases k.auto_clean) [
    | inl c ↦ rw (c, next_id) (rw (young, e) refl)
    | inr c ↦ rw (c, next_id) (rw e refl)
  ]
  | inr e ↦ elim (Bool-cases k.auto_clean) [
    | inl c ↦ rw (c, next_id) (rw (young, e) refl)
    | inr c ↦ rw (c, next_id) (rw e refl)
  ]
]

new_id_tuple-update :
    (now : ℕ) (k : IdKeeper) (b : Bundle) → new_id_tuple (update now k b).1 ≡ new_id_tuple b
unfolding new_id_tuple update with_sequence
new_id_tuple-update now k b = refl

sequence_number-update :
    (now : ℕ) (k : IdKeeper) (b : Bundle)
    → (update now k b).1.primary_block.creation_timestamp.sequence_number
      ≡ next_id k (new_id_tuple b)
unfolding update with_sequence
sequence_number-update now k b = refl

-- If a bundle's tuple is not old at any of the calls of update, which may be for bundles with any
-- tuples, then the bundles with this tuple get consecutive sequence numbers, from the keeper's next
-- number on, modulo 2^64.
pub sequences-update_all :
    (tpl : IdTuple) (k : IdKeeper) (calls : List (ℕ × Bundle))
    → All (λ (now, b). is_old now tpl ≡ false) calls
    → sequences tpl (update_all k calls) ≡ count_from (next_id k tpl) tpl calls
unfolding sequences update_all count_from
sequences-update_all tpl k [] young = refl
sequences-update_all tpl k ((now, b) ∷ calls) young =
    let kept = next_id-update now k b tpl young.0 in
    let ih = sequences-update_all tpl (update now k b).0 calls young.1 in
    elim (Bool-cases (same_tuple tpl (new_id_tuple b))) [
      | inl e ↦
          let same = sym (same_tuple_sound tpl (new_id_tuple b) e) in
          let kept' = rw e at kept in
          rw (new_id_tuple-update now k b, sequence_number-update now k b, e)
            (ap₂ (λ n ns. n ∷ ns) (ap (next_id k) same)
              (ih
                ∙ ap (λ n. count_from n tpl calls)
                    (kept' ∙ ap (λ t. (next_id k t + 1) % u64_mod) same)))
      | inr e ↦
          let kept' = rw e at kept in
          rw (new_id_tuple-update now k b, e) (ih ∙ ap (λ n. count_from n tpl calls) kept')
    ]
