-- ===== src/Routing/Spray.antt =====
-- algorithm_spray.go: Spray and Wait, and Binary Spray. A state is the entry of one bundle in
-- bundleData; a convergence sender stands for the endpoint of its peer. The copies are 64-bit words. The
-- flag that SenderForBundle returns besides the senders is always false.
use dtn.Prelude.{
  ℕ, suc, ◌+◌, ◌-◌, ◌/◌, ◌%◌, List, [], ◌∷◌, ◌++◌, Option, none, some, Bool, true, false, ◌||◌, ok,
  err, panic, ◌>>=◌, ltb, if◌then◌else◌,
}
use mathlib.Core.Option
use dtn.Prelude.Int.{u64_mod}
use dtn.Bpv7.Errors.{Result}
use dtn.Bpv7.Endpoint.{EndpointId, eid_eq}
use dtn.Bpv7.Block.{CanonicalBlock, previous_node, previous_node_code}
use dtn.Bpv7.Bundle.{Bundle, find_block}
pub mod Copies
pub mod Halves
mod Tests

-- sprayMetaData
pub record SprayMetaData : Type 0 where
  pub sent : List EndpointId
  pub remaining_copies : ℕ

unfoldable pub known : EndpointId → List EndpointId → Bool
known e [] = false
known e (x ∷ xs) = eid_eq e x || known e xs

-- The loop of ReportFailure that takes the first entry of a peer out.
unfoldable pub remove_first : EndpointId → List EndpointId → List EndpointId
remove_first e [] = []
remove_first e (x ∷ xs) = let rest = remove_first e xs in if eid_eq x e then xs else x ∷ rest

-- cleanupMetaData on the entry, if the store knows the bundle or not.
unfoldable pub cleanup_meta_data : Bool → Option SprayMetaData → Option SprayMetaData
cleanup_meta_data true entry = entry
cleanup_meta_data false entry = none

-- The assertion `Value.(*PreviousNodeBlock)` panics at a block of another type.
assert_previous_node : Option CanonicalBlock → Result (List EndpointId)
assert_previous_node none = ok []
assert_previous_node (some cb) = elim cb.value [ previous_node e ↦ ok (e ∷ []) | _ ↦ panic ]

-- The endpoint of the previous node block, if there is one.
unfoldable pub previous_nodes : Bundle → Result (List EndpointId)
unfolding assert_previous_node
previous_nodes b = assert_previous_node (find_block previous_node_code b.canonical_blocks)

module _ (multiplicity : ℕ) where
  -- SprayAndWait.NotifyNewBundle, for a bundle of this host or of another.
  unfoldable pub notify_new_bundle : Bool → Bundle → Result SprayMetaData
  notify_new_bundle true b = ok record { sent = []; remaining_copies = multiplicity }
  notify_new_bundle false b = do
    nodes ← previous_nodes b
    ok record { sent = nodes; remaining_copies = 1 }

-- One more peer gets a copy.
unfoldable pub give_copy : EndpointId → SprayMetaData → SprayMetaData
give_copy e m = record { sent = m.sent ++ e ∷ []; remaining_copies = m.remaining_copies - 1 }

-- The loop of SenderForBundle over the senders.
unfoldable pub select_senders : List EndpointId → SprayMetaData → List EndpointId × SprayMetaData
select_senders [] m = ([], m)
select_senders (cs ∷ css) m =
    let (chosen, m') = select_senders css (give_copy cs m) in
    let skipped = select_senders css m in
    if ltb m.remaining_copies 2
    then ([], m)
    else if known cs m.sent
    then skipped
    else (cs ∷ chosen, m')

-- SprayAndWait.SenderForBundle
unfoldable pub sender_for_bundle :
    List EndpointId → Option SprayMetaData → List EndpointId × Option SprayMetaData
sender_for_bundle css none = ([], none)
sender_for_bundle css (some m) =
    let (chosen, m') = select_senders css m in
    if ltb m.remaining_copies 2 then ([], some m) else (chosen, some m')

-- SprayAndWait.ReportFailure
unfoldable pub report_failure : EndpointId → Option SprayMetaData → Option SprayMetaData
report_failure e none = none
report_failure e (some m) =
    some
      record { sent = remove_first e m.sent; remaining_copies = (m.remaining_copies + 1) % u64_mod }

-- The entry of a bundle, and the copies in the bundle's BinarySprayBlock, if it has one.
pub record BinaryState : Type 0 where
  pub entry : Option SprayMetaData
  pub block_copies : Option ℕ

-- BinarySpray.NotifyNewBundle
unfoldable pub binary_notify : ℕ → Bundle → Option ℕ → Result BinaryState
binary_notify multiplicity b none = ok record {
  entry = some record { sent = []; remaining_copies = multiplicity };
  block_copies = none;
}
binary_notify multiplicity b (some copies) = do
  nodes ← previous_nodes b
  ok record {
    entry = some record { sent = nodes; remaining_copies = copies };
    block_copies = some copies;
  }

-- The loop of BinarySpray.SenderForBundle: the first peer that has no copy gets half of them.
unfoldable pub select_one :
    List EndpointId → SprayMetaData → Option ℕ → List EndpointId × BinaryState
select_one [] m block = ([], record { entry = some m; block_copies = block })
select_one (cs ∷ css) m block =
    let later = select_one css m block in
    if known cs m.sent then later else (
      cs ∷ [],
      record {
        entry = some record {
          sent = m.sent ++ cs ∷ [];
          remaining_copies = m.remaining_copies - m.remaining_copies / 2;
        };
        block_copies = some (m.remaining_copies / 2);
      },
    )

unfoldable pub binary_entry :
    List EndpointId → Option SprayMetaData → Option ℕ → List EndpointId × BinaryState
binary_entry css none block = ([], record { entry = none; block_copies = block })
binary_entry css (some m) block =
    if ltb m.remaining_copies 2
    then ([], record { entry = some m; block_copies = block })
    else select_one css m block

-- BinarySpray.SenderForBundle
unfoldable pub binary_sender : List EndpointId → BinaryState → List EndpointId × BinaryState
unfolding binary_entry
binary_sender css s = binary_entry css s.entry s.block_copies

unfoldable pub binary_failed : EndpointId → Option SprayMetaData → Option ℕ → BinaryState
binary_failed e entry' none = record { entry = entry'; block_copies = none }
binary_failed e none (some copies) = record { entry = none; block_copies = some copies }
binary_failed e (some m) (some copies) = record {
  entry = some record m { sent = remove_first e m.sent };
  block_copies = some ((m.remaining_copies + copies) % u64_mod);
}

-- BinarySpray.ReportFailure
unfoldable pub binary_failure : EndpointId → BinaryState → BinaryState
unfolding binary_failed
binary_failure e s = binary_failed e s.entry s.block_copies
