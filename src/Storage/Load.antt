-- ===== src/Storage/Load.antt =====
-- BundlePart.Load, BundleItem.Load and IsComplete in bundle_item.go. What is read from a file is the
-- bundle that was written, after its CheckValid.
use dtn.Prelude.{
  ℕ, ◌≡◌, refl, List, [], ◌∷◌, Option, none, some, Bool, true, false, not, ok, err, panic, ◌>>=◌,
  ◌>>◌, if◌then◌else◌,
}
use dtn.Prelude.Sort.{sort_by}
use dtn.Bpv7.Errors.{Result, no_file, not_fragment}
use dtn.Bpv7.Primary.{has_fragmentation}
use dtn.Bpv7.Bundle.{Bundle, check_valid}
use dtn.Bpv7.Reassembly.{
  check_gaps, prepare_reassembly, is_bundle_reassemblable, reassemble_fragments,
}
use dtn.Bpv7.Codec.Endpoint.{no_error}
use dtn.Storage.{BundlePart, BundleItem, Store}

unfoldable pub load_file : ℕ → ℕ → Option Bundle → Result Bundle
load_file now name none = err (no_file name)
load_file now name (some b) = do errs ← check_valid now b; no_error errs; ok b

-- BundleItem.bundleParts
unfoldable pub bundle_parts : ℕ → (ℕ → Option Bundle) → List BundlePart → Result (List Bundle)
unfolding load_file
bundle_parts now files [] = ok []
bundle_parts now files (p ∷ ps) = do
  b ← load_file now p.filename (files p.filename)
  bs ← bundle_parts now files ps
  ok (b ∷ bs)

reassembled : ℕ → List Bundle → Result Bundle
reassembled now bs = do (b, errs) ← reassemble_fragments now bs; no_error errs; ok b

reassemble_whole :
    (now : ℕ) (b : Bundle)
    → has_fragmentation b.primary_block ≡ false
    → reassemble_fragments now (b ∷ []) ≡ err not_fragment
unfolding reassemble_fragments prepare_reassembly check_gaps sort_by has_fragmentation
reassemble_whole now b h = rw h refl

module _ {P : Type 0} where
  -- BundleItem.Load
  unfoldable pub load : ℕ → Store P → BundleItem P → Result Bundle
  unfolding reassembled
  load now s bi = bundle_parts now s.files bi.parts >>= reassembled now

  unfoldable pub is_complete : ℕ → Store P → BundleItem P → Result Bool
  is_complete now s bi =
      let loaded : Result Bool = elim (bundle_parts now s.files bi.parts) [
        | ok bs ↦ is_bundle_reassemblable bs
        | err e ↦ ok false
        | panic ↦ panic
      ] in
      if not bi.fragmented then ok true else loaded

  -- For an item of a bundle that is no fragment, of which the file is there and valid, IsComplete
  -- says that it can be loaded, and Load returns the error that it is no fragment.
  pub load-is_complete :
      (now : ℕ) (s : Store P) (bi : BundleItem P) (b : Bundle)
      → bi.fragmented ≡ false
      → bundle_parts now s.files bi.parts ≡ ok (b ∷ [])
      → has_fragmentation b.primary_block ≡ false
      → (is_complete now s bi ≡ ok true) × (load now s bi ≡ err not_fragment)
  unfolding load is_complete
  load-is_complete now s bi b whole parts flag =
      (rw whole refl, rw parts (rw (reassemble_whole now b flag) refl))
