-- ===== src/Storage.antt =====
-- pkg/storage: bundle_item.go and store.go. The key-value library badgerhold is a map from scrubbed
-- bundle IDs to items, the disk a map from paths to the bundle that ParseBundle reads at the start of the
-- file: storeBundle does not truncate a file, so that more octets may follow, which are not read.
-- `path` is bundlePartPath, which is a hash of the whole ID; `fails` says for which paths writing a
-- file fails.
pub mod Push
pub mod Pushed
pub mod Outcomes
pub mod Load
mod Tests
use dtn.Prelude.{
  ℕ, List, [], ◌∷◌, ◌++◌, Option, none, some, Bool, true, false, not, ◌&&◌, ◌||◌, Run, ok, err,
  panic, ◌>>=◌, ◌>>◌, guard, ◌==◌, if◌then◌else◌, bytes_eq,
}
use dtn.Prelude.Int.{ℤ}
use dtn.Bpv7.Uri.{endpoint_string}
use dtn.Bpv7.Primary.{has_fragmentation}
use dtn.Bpv7.Bundle.{Bundle, BundleId, bundle_id, scrub, expiry}

pub data Error : Type 0 where
  write_failed : ℕ → Error
  not_found : BundleId → Error

pub record BundlePart : Type 0 where
  pub filename : ℕ
  pub part_offset : ℕ
  pub part_total : ℕ

pub record BundleItem (P : Type 0) : Type 0 where
  pub b_id : BundleId
  pub pending : Bool
  pub expires : ℤ
  pub fragmented : Bool
  pub parts : List BundlePart
  pub properties : P

pub record Store (P : Type 0) : Type 0 where
  pub items : BundleId → Option (BundleItem P)
  pub files : ℕ → Option Bundle

-- Scrubbed IDs are equal if their strings are; without an endpoint, the string is that of "dtn:none".
unfoldable pub same_id : BundleId → BundleId → Bool
same_id a b =
    bytes_eq (endpoint_string a.source_node) (endpoint_string b.source_node)
    && a.timestamp.dtn_time == b.timestamp.dtn_time
    && a.timestamp.sequence_number == b.timestamp.sequence_number

-- The part of a bundle, which newBundleItem makes.
unfoldable pub new_bundle_part : (BundleId → ℕ) → Bundle → BundlePart
new_bundle_part path b = record {
  filename = path (bundle_id b);
  part_offset = (bundle_id b).id_fragment_offset;
  part_total = (bundle_id b).id_total_data_length;
}

unfoldable pub known_fragment : BundlePart → List BundlePart → Bool
known_fragment p [] = false
known_fragment p (q ∷ qs) =
    (q.part_offset == p.part_offset && q.part_total == p.part_total) || known_fragment p qs

module _ {P : Type 0} (no_properties : P) (path : BundleId → ℕ) (fails : ℕ → Bool) where
  unfoldable pub new_bundle_item : Bundle → BundleItem P
  new_bundle_item b = record {
    b_id = scrub (bundle_id b);
    pending = false;
    expires = expiry b.primary_block.creation_timestamp b.primary_block.lifetime;
    fragmented = has_fragmentation b.primary_block;
    parts = new_bundle_part path b ∷ [];
    properties = no_properties;
  }

  unfoldable pub query_id : Store P → BundleId → Option (BundleItem P)
  query_id s bid = s.items (scrub bid)

  -- Insert and Update of badgerhold.
  abbrev pub put : Store P → BundleId → BundleItem P → Store P
  put s id bi = record s { items = λ k. if same_id k id then some bi else s.items k }

  -- BundlePart.storeBundle
  unfoldable pub store_bundle : Store P → BundlePart → Bundle → Run Error (Store P)
  store_bundle s p b =
      if fails p.filename
      then err (write_failed p.filename)
      else ok (record s { files = λ k. if k == p.filename then some b else s.files k })

  -- Push, if an item of this ID is stored.
  push_known : Store P → Bundle → BundleItem P → BundleItem P → Run Error (Store P)
  push_known s b bi stored =
      let part = new_bundle_part path b in
      let added = store_bundle s part b >>= λ s'.
      ok (put s' stored.b_id (record stored { parts = stored.parts ++ part ∷ [] })) in
      if bi.fragmented && stored.fragmented && not (known_fragment part stored.parts)
      then added
      else ok s

  push_at : Store P → Bundle → Option (BundleItem P) → Run Error (Store P)
  push_at s b none = store_bundle s (new_bundle_part path b) b >>= λ s'.
      ok (put s' (new_bundle_item b).b_id (new_bundle_item b))
  push_at s b (some stored) = push_known s b (new_bundle_item b) stored

  unfoldable pub push : Store P → Bundle → Run Error (Store P)
  unfolding push_at push_known
  push s b = push_at s b (query_id s (bundle_id b))

  -- Update refuses an item that is not there.
  unfoldable pub update : Store P → BundleItem P → Run Error (Store P)
  update s bi = elim (s.items bi.b_id) [
    | none ↦ err (not_found bi.b_id)
    | some _ ↦ ok (put s bi.b_id bi)
  ]

  -- The files of the parts; an error at a file is only logged.
  unfoldable pub delete_parts : (ℕ → Option Bundle) → List BundlePart → ℕ → Option Bundle
  delete_parts files [] = files
  delete_parts files (p ∷ ps) = delete_parts (λ k. if k == p.filename then none else files k) ps

  unfoldable pub delete : Store P → BundleId → Store P
  delete s bid = elim (query_id s bid) [
    | none ↦ s
    | some bi ↦ record s {
      items = λ k. if same_id k bi.b_id then none else s.items k;
      files = delete_parts s.files bi.parts;
    }
  ]

  unfoldable pub knows_bundle : Store P → BundleId → Bool
  knows_bundle s bid = elim (query_id s bid) [ none ↦ false | some _ ↦ true ]
