-- ===== src/Routing/Dtlsr/Tracking.antt =====
-- algorithm_dtlsr.go: the received data name only nodes that have a number, but for the node's own map.
use dtn.Prelude.{ℕ, ◌≡◌, refl, sym, ap, subst, ◌∙◌, List, [], ◌∷◌, Option, none, some, All, if-elim}
use mathlib.Core.Option.{some-injective}
use dtn.Bpv7.Endpoint.{EndpointId, eid_eq, eid_eq_sound}
use dtn.Routing.Dtlsr.{
  PeerMap, own_map, entries, PeerData, Dtlsr, peers_of, new_node, add_node, track_peers, store_data,
  with_data, note_data, note_stored, find_data, should_replace,
}
use dtn.Routing.Dtlsr.Indices.{
  IsIndexed, IsTracked, new_node-IsIndexed, new_node-keeps, new_node-IsTracked,
}

-- Peers that are numbered. The own map has whatever peers came up since.
unfoldable pub IsTrackedMap : Dtlsr → PeerMap → Type 0
IsTrackedMap s own_map = Unit
IsTrackedMap s (entries ps) = All (λ p. IsTracked s p.0) ps

-- The sender of the data and its peers are numbered.
unfoldable pub IsTrackedData : Dtlsr → PeerData → Type 0
IsTrackedData s d = IsTracked s d.data_id × IsTrackedMap s d.data_peers

pub record IsConsistent (s : Dtlsr) : Type 0 where
  pub numbered : IsIndexed s
  pub tracked : All (IsTrackedData s) s.received_data

pub All-weaken :
    {A : Type 0} (P Q : A → Type 0) → ((x : A) → P x → Q x) → (xs : List A) → All P xs → All Q xs
All-weaken P Q f [] h = tt
All-weaken P Q f (x ∷ xs) (h, hs) = (f x h, All-weaken P Q f xs hs)

track_peers-IsIndexed :
    (s : Dtlsr) (ps : List (EndpointId × ℕ)) → IsIndexed s → IsIndexed (track_peers s ps)
unfolding track_peers
track_peers-IsIndexed s [] h = h
track_peers-IsIndexed s ((e, t) ∷ ps) h =
    track_peers-IsIndexed (new_node s e) ps (new_node-IsIndexed s e h)

track_peers-keeps :
    (s : Dtlsr) (ps : List (EndpointId × ℕ)) (f : EndpointId)
    → IsTracked s f
    → IsTracked (track_peers s ps) f
unfolding track_peers
track_peers-keeps s [] f h = h
track_peers-keeps s ((e, t) ∷ ps) f h =
    track_peers-keeps (new_node s e) ps f (new_node-keeps s e f h)

track_peers-IsTracked :
    (s : Dtlsr) (ps : List (EndpointId × ℕ)) → All (λ p. IsTracked (track_peers s ps) p.0) ps
unfolding track_peers
track_peers-IsTracked s [] = tt
track_peers-IsTracked s ((e, t) ∷ ps) = (
  track_peers-keeps (new_node s e) ps e (new_node-IsTracked s e),
  track_peers-IsTracked (new_node s e) ps,
)

add_node-data :
    (s : Dtlsr) (e : EndpointId) (o : Option ℕ) → (add_node s e o).received_data ≡ s.received_data
unfolding add_node
add_node-data s e (some n) = refl
add_node-data s e none = refl

pub new_node-data : (s : Dtlsr) (e : EndpointId) → (new_node s e).received_data ≡ s.received_data
unfolding new_node
new_node-data s e = add_node-data s e (s.node_index e)

track_peers-data :
    (s : Dtlsr) (ps : List (EndpointId × ℕ)) → (track_peers s ps).received_data ≡ s.received_data
unfolding track_peers
track_peers-data s [] = refl
track_peers-data s ((e, t) ∷ ps) = track_peers-data (new_node s e) ps ∙ new_node-data s e

IsTrackedMap-keeps :
    (s s' : Dtlsr)
    → ((f : EndpointId) → IsTracked s f → IsTracked s' f)
    → (m : PeerMap) → IsTrackedMap s m
    → IsTrackedMap s' m
unfolding IsTrackedMap
IsTrackedMap-keeps s s' keeps own_map h = tt
IsTrackedMap-keeps s s' keeps (entries ps) h =
    All-weaken (λ p. IsTracked s p.0) (λ p. IsTracked s' p.0) (λ p. keeps p.0) ps h

-- Once its entries are gone through, a map is numbered.
track_peers-IsTrackedMap :
    (s s' : Dtlsr) (m : PeerMap) → IsTrackedMap (track_peers s' (peers_of s m)) m
unfolding IsTrackedMap peers_of
track_peers-IsTrackedMap s s' own_map = tt
track_peers-IsTrackedMap s s' (entries ps) = track_peers-IsTracked s' ps

IsTrackedData-keeps :
    (s s' : Dtlsr)
    → ((f : EndpointId) → IsTracked s f → IsTracked s' f)
    → (d : PeerData) → IsTrackedData s d
    → IsTrackedData s' d
unfolding IsTrackedData
IsTrackedData-keeps s s' keeps d (h, hs) =
    (keeps d.data_id h, IsTrackedMap-keeps s s' keeps d.data_peers hs)

store_data-All :
    (P : PeerData → Type 0) (d : PeerData) (xs : List PeerData)
    → P d
    → All P xs
    → All P (store_data d xs)
unfolding store_data
store_data-All P d [] h hs = (h, tt)
store_data-All P d (x ∷ xs) h (hx, hs) =
    if-elim (All P) (eid_eq x.data_id d.data_id) _ _ (λ _. (h, hs))
      (λ _. (hx, store_data-All P d xs h hs))

find_data-lem :
    (P : PeerData → Type 0) (e : EndpointId) (xs : List PeerData) {x : PeerData}
    → find_data e xs ≡ some x
    → All P xs
    → P x × (x.data_id ≡ e)
unfolding find_data
find_data-lem P e [] h hs = cc
find_data-lem P e (d ∷ ds) {x} h (hd, hs) =
    if-elim (λ (o : Option PeerData). o ≡ some x → P x × (x.data_id ≡ e)) (eid_eq d.data_id e) _ _
      (λ same q.
        let at_hand = some-injective _ _ q in
        (
          subst P at_hand hd,
          sym (ap (λ (d : PeerData). d.data_id) at_hand) ∙ eid_eq_sound d.data_id e same,
        ))
      (λ _ q. find_data-lem P e ds q hs) h

-- A consistent state, with data stored and all their nodes numbered in a later state.
later-IsConsistent :
    (s s' : Dtlsr) (d : PeerData)
    → IsConsistent s
    → IsIndexed s'
    → ((f : EndpointId) → IsTracked s f → IsTracked s' f)
    → s'.received_data ≡ store_data d s.received_data
    → IsTrackedData s' d
    → IsConsistent s'
later-IsConsistent s s' d h indexed keeps same hd = record {
  numbered = indexed;
  tracked = subst (All (IsTrackedData s')) (sym same) (
      store_data-All (IsTrackedData s') d s.received_data hd (
        All-weaken (IsTrackedData s) (IsTrackedData s') (IsTrackedData-keeps s s' keeps)
          s.received_data h.tracked));
}

with_data-IsIndexed : (s : Dtlsr) (d : PeerData) → IsIndexed s → IsIndexed (with_data s d)
unfolding with_data
with_data-IsIndexed s d h = record {
  started = h.started;
  counted = h.counted;
  indexed = h.indexed;
  found = h.found;
}

note_stored-IsConsistent :
    (s : Dtlsr) (d : PeerData) (o : Option PeerData)
    → IsConsistent s
    → find_data d.data_id s.received_data ≡ o
    → IsConsistent (note_stored s d o)
unfolding note_stored with_data IsTracked IsTrackedData
note_stored-IsConsistent s d none h q =
    let s1 = with_data s d in
    let ps = peers_of s d.data_peers in
    let s2 = new_node s1 d.data_id in
    later-IsConsistent s (track_peers s2 ps) d h
      (track_peers-IsIndexed s2 ps
        (new_node-IsIndexed s1 d.data_id (with_data-IsIndexed s d h.numbered)))
      (λ f t. track_peers-keeps s2 ps f (new_node-keeps s1 d.data_id f t))
      (track_peers-data s2 ps ∙ new_node-data s1 d.data_id)
      (
        track_peers-keeps s2 ps d.data_id (new_node-IsTracked s1 d.data_id),
        track_peers-IsTrackedMap s s2 d.data_peers,
      )
note_stored-IsConsistent s d (some stored) h q =
    let s1 = with_data s d in
    let ps = peers_of s d.data_peers in
    let (old, same) = find_data-lem (IsTrackedData s) d.data_id s.received_data q h.tracked in
    if-elim IsConsistent (should_replace d stored) _ _
      (λ _.
        later-IsConsistent s (track_peers s1 ps) d h
          (track_peers-IsIndexed s1 ps (with_data-IsIndexed s d h.numbered))
          (λ f t. track_peers-keeps s1 ps f t) (track_peers-data s1 ps)
          (
            track_peers-keeps s1 ps d.data_id (subst (IsTracked s) same old.0),
            track_peers-IsTrackedMap s s1 d.data_peers,
          ))
      (λ _. h)

pub note_data-IsConsistent :
    (s : Dtlsr) (d : PeerData) → IsConsistent s → IsConsistent (note_data s d)
unfolding note_data
note_data-IsConsistent s d h =
    note_stored-IsConsistent s d (find_data d.data_id s.received_data) h refl

pub new_node-IsConsistent :
    (s : Dtlsr) (e : EndpointId) → IsConsistent s → IsConsistent (new_node s e)
new_node-IsConsistent s e h = record {
  numbered = new_node-IsIndexed s e h.numbered;
  tracked = subst (All (IsTrackedData (new_node s e))) (sym (new_node-data s e)) (
      All-weaken (IsTrackedData s) (IsTrackedData (new_node s e))
        (IsTrackedData-keeps s (new_node s e) (new_node-keeps s e)) s.received_data h.tracked);
}
