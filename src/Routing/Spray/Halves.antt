-- ===== src/Routing/Spray/Halves.antt =====
-- algorithm_spray.go: what Binary Spray does with the copies of a bundle. The number in the bundle's
-- BinarySprayBlock is what the peer gets.
use dtn.Prelude.{
  ℕ, ◌+◌, ◌-◌, ◌/◌, ◌%◌, ◌≤◌, ◌≡◌, refl, ap, ◌∙◌, All, List, [], ◌∷◌, ◌++◌, Option, some, true,
  false, ltb, if-elim, arith,
}
use dtn.Prelude.Int.{u64_mod}
use dtn.Bpv7.Endpoint.{EndpointId, eid_eq, eid_eq_refl}
use dtn.Routing.Spray.Copies.{eid_eq_sym}
use dtn.Routing.Spray.{
  SprayMetaData, BinaryState, known, remove_first, select_one, binary_entry, binary_sender,
  binary_failed, binary_failure,
}

-- The state that holds `kept` copies and puts `given` ones into the block.
abbrev pub holding : List EndpointId → ℕ → ℕ → BinaryState
holding sent kept given = record {
  entry = some record { sent = sent; remaining_copies = kept };
  block_copies = some given;
}

-- Nobody new was there, or the first new peer gets the smaller half.
pub data Halves (css : List EndpointId) (m : SprayMetaData) (block : Option ℕ)
    : List EndpointId × BinaryState → Type 0 where
  nobody :
      All (λ cs. known cs m.sent ≡ true) css
      → Halves css m block ([], record { entry = some m; block_copies = block })
  half :
      (cs : EndpointId) (before after : List EndpointId) (kept given : ℕ)
      → css ≡ before ++ cs ∷ after
      → All (λ x. known x m.sent ≡ true) before
      → known cs m.sent ≡ false
      → kept + given ≡ m.remaining_copies
      → given ≤ kept
      → kept ≤ given + 1
      → 1 ≤ given
      → Halves css m block (cs ∷ [], holding (m.sent ++ cs ∷ []) kept given)

Halves-cons :
    (x : EndpointId) (css : List EndpointId) (m : SprayMetaData) (block : Option ℕ)
    (r : List EndpointId × BinaryState)
    → known x m.sent ≡ true
    → Halves css m block r
    → Halves (x ∷ css) m block r
Halves-cons x css m block _ old (nobody all_old) = nobody (old, all_old)
Halves-cons x css m block _ old
      (half cs before after kept given split all_old fresh sum less half_up some_copy) =
    half cs (x ∷ before) after kept given (ap (x ∷◌) split) (old, all_old) fresh sum less half_up
      some_copy

select_one-Halves :
    (css : List EndpointId) (m : SprayMetaData) (block : Option ℕ)
    → 2 ≤ m.remaining_copies
    → Halves css m block (select_one css m block)
unfolding select_one
select_one-Halves [] m block enough = nobody tt
select_one-Halves (cs ∷ css) m block enough =
    if-elim (Halves (cs ∷ css) m block) (known cs m.sent) _ _
      (λ old. Halves-cons cs css m block _ old (select_one-Halves css m block enough))
      (λ fresh.
        half cs [] css _ _ refl tt fresh (omega arith) (omega arith) (omega arith) (omega arith))

-- If a node has two copies of a bundle or more, Binary Spray picks no sender and keeps all, when every
-- peer has a copy; otherwise it picks the first peer that has none, keeps the larger half of
-- the copies, puts the smaller half, which is not 0, into the bundle's block, and notes the peer.
pub binary_sender-Halves :
    (css : List EndpointId) (m : SprayMetaData) (block : Option ℕ)
    → 2 ≤ m.remaining_copies
    → Halves css m block (binary_sender css (record { entry = some m; block_copies = block }))
unfolding binary_sender binary_entry
binary_sender-Halves css m block enough =
    if-elim (Halves css m block) (ltb m.remaining_copies 2) _ _
      (λ few. absurd (ground (arith, few, enough))) (λ _. select_one-Halves css m block enough)

remove_first-append :
    (e : EndpointId) (xs : List EndpointId)
    → known e xs ≡ false
    → remove_first e (xs ++ e ∷ []) ≡ xs
unfolding known remove_first
remove_first-append e [] h =
    if-elim (λ (l : List EndpointId). l ≡ []) (eid_eq e e) _ _ (λ _. refl)
      (λ differ. absurd (ground (arith, differ, eid_eq_refl e)))
remove_first-append e (x ∷ xs) h =
    let other : eid_eq e x ≡ false = ground (arith, h) in
    let others : known e xs ≡ false = ground (arith, h) in
    if-elim (λ (l : List EndpointId). l ≡ x ∷ xs) (eid_eq x e) _ _
      (λ same. absurd (let differ = eid_eq_sym e x other in ground (arith, same, differ)))
      (λ _. ap (x ∷◌) (remove_first-append e xs others))

-- One peer that has no copy is there, the transmission to it fails, and the node asks again.
unfoldable pub retry : EndpointId → BinaryState → BinaryState
retry cs s = (binary_sender (cs ∷ []) (binary_failure cs (binary_sender (cs ∷ []) s).1)).1

abbrev halved : EndpointId → SprayMetaData → List EndpointId × BinaryState
halved cs m = (
  cs ∷ [],
  holding (m.sent ++ cs ∷ []) (m.remaining_copies - m.remaining_copies / 2)
      (m.remaining_copies / 2),
)

give_half :
    (cs : EndpointId) (m : SprayMetaData) (block : Option ℕ)
    → 2 ≤ m.remaining_copies
    → known cs m.sent ≡ false
    → binary_sender (cs ∷ []) (record { entry = some m; block_copies = block }) ≡ halved cs m
unfolding binary_sender binary_entry select_one
give_half cs m block enough fresh =
    if-elim (λ r. r ≡ halved cs m) (ltb m.remaining_copies 2) _ _
      (λ few. absurd (ground (arith, few, enough)))
      (λ _.
        if-elim (λ r. r ≡ halved cs m) (known cs m.sent) _ _
          (λ old. absurd (ground (arith, old, fresh))) (λ _. refl))

fail_half :
    (cs : EndpointId) (sent : List EndpointId) (kept given : ℕ)
    → known cs sent ≡ false
    → binary_failure cs (holding (sent ++ cs ∷ []) kept given)
      ≡ holding sent kept ((kept + given) % u64_mod)
unfolding binary_failure binary_failed
fail_half cs sent kept given fresh =
    ap (λ l. holding l kept ((kept + given) % u64_mod)) (remove_first-append cs sent fresh)

-- If a node has three copies of a bundle or more, the only peer has none, and the
-- transmission to it fails: the second attempt shares out only the half that was kept; the half that was
-- given with the failed transmission is lost.
pub retry-loses :
    (cs : EndpointId) (m : SprayMetaData) (block : Option ℕ)
    → 3 ≤ m.remaining_copies
    → known cs m.sent ≡ false
    → retry cs (record { entry = some m; block_copies = block }) ≡ (
        let kept = m.remaining_copies - m.remaining_copies / 2 in
        holding (m.sent ++ cs ∷ []) (kept - kept / 2) (kept / 2))
unfolding retry
retry-loses cs m block enough fresh =
    let kept = m.remaining_copies - m.remaining_copies / 2 in
    let still_two : 2 ≤ kept = omega (arith, enough) in
    ap (λ r. (binary_sender (cs ∷ []) (binary_failure cs r.1)).1)
      (give_half cs m block (omega (arith, enough)) fresh)
    ∙ ap (λ s. (binary_sender (cs ∷ []) s).1) (fail_half cs m.sent kept _ fresh)
    ∙ ap (λ r. r.1)
        (give_half cs (record { sent = m.sent; remaining_copies = kept }) _ still_two fresh)
