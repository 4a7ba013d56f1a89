-- ===== src/Bpv7/Bundle/Order.antt =====
-- The order of canonical blocks, canonicalBlockNumberSort in canonical_block_sort.go and
-- Bundle.sortBlocks.
use mathlib.Core.List.{Perm}
use dtn.Prelude.{List, arith}
use dtn.Prelude.Sort.{IsSortedBy, IsOrder, sort_by-perm, sort_by-IsSortedBy}
use dtn.Bpv7.Block.{CanonicalBlock}
use dtn.Bpv7.Bundle.{less, less_block, sort_blocks}

-- No block of the list is less than one before it.
abbrev pub IsSorted : List CanonicalBlock → Type 0
IsSorted = IsSortedBy less_block

less_block-IsOrder : IsOrder less_block
unfolding less_block less
less_block-IsOrder = record {
  asymm = λ a b h. ground arith;
  not_less_trans = λ a b c h p. ground arith;
}

-- sortBlocks keeps exactly the given blocks.
pub sort_blocks-perm : (bs : List CanonicalBlock) → Perm (sort_blocks bs) bs
unfolding sort_blocks
sort_blocks-perm bs = sort_by-perm less_block bs

-- sortBlocks puts them in ascending order of their numbers, with number 1 behind all others.
pub sort_blocks-IsSorted : (bs : List CanonicalBlock) → IsSorted (sort_blocks bs)
unfolding sort_blocks
sort_blocks-IsSorted bs = sort_by-IsSortedBy less_block less_block-IsOrder bs
