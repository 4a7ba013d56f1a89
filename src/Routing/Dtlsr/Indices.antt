-- ===== src/Routing/Dtlsr/Indices.antt =====
-- algorithm_dtlsr.go: nodeIndex and indexNode number the same nodes.
use dtn.Prelude.{
  ℕ, zero, suc, ◌<◌, ◌≡◌, refl, sym, ap, subst, List, [], ◌∷◌, ◌++◌, Option, none, some, inl, inr,
  Bool-cases, length, length-append, arith, ◌⊎◌, if-elim,
}
use mathlib.Core.Option.{some-injective}
use dtn.Bpv7.Endpoint.{EndpointId, eid_eq, eid_eq_refl, eid_eq_sound}
use dtn.Routing.Dtlsr.{Dtlsr, insert, new_node, add_node, node_at}

node_at-left :
    (xs ys : List EndpointId) (n : ℕ) (e : EndpointId)
    → node_at xs n ≡ some e
    → node_at (xs ++ ys) n ≡ some e
unfolding node_at
node_at-left [] ys n e h = cc
node_at-left (x ∷ xs) ys zero e h = h
node_at-left (x ∷ xs) ys (suc n) e h = node_at-left xs ys n e h

node_at-end : (xs : List EndpointId) (e : EndpointId) → node_at (xs ++ e ∷ []) (length xs) ≡ some e
unfolding node_at
node_at-end [] e = refl
node_at-end (x ∷ xs) e = node_at-end xs e

node_at-cases :
    (xs : List EndpointId) (e f : EndpointId) (n : ℕ)
    → node_at (xs ++ e ∷ []) n ≡ some f
    → (node_at xs n ≡ some f) ⊎ ((n ≡ length xs) × (e ≡ f))
unfolding node_at
node_at-cases [] e f zero h = inr (refl, some-injective _ _ h)
node_at-cases [] e f (suc n) h = cc
node_at-cases (x ∷ xs) e f zero h = inl h
node_at-cases (x ∷ xs) e f (suc n) h = elim (node_at-cases xs e f n h) [
  | inl l ↦ inl l
  | inr r ↦ inr (ap suc r.0, r.1)
]

pub node_at-within :
    (xs : List EndpointId) (n : ℕ) → n < length xs → (e : EndpointId) × (node_at xs n ≡ some e)
unfolding node_at
node_at-within [] n h = absurd (omega arith)
node_at-within (x ∷ xs) zero h = (x, refl)
node_at-within (x ∷ xs) (suc n) h = node_at-within xs n (omega arith)

-- The two maps are inverse to each other, and the count is the number of nodes.
pub record IsIndexed (s : Dtlsr) : Type 0 where
  pub started : 0 < s.node_count
  pub counted : s.node_count ≡ length s.index_node
  pub indexed : (e : EndpointId) (n : ℕ) → s.node_index e ≡ some n → node_at s.index_node n ≡ some e
  pub found : (e : EndpointId) (n : ℕ) → node_at s.index_node n ≡ some e → s.node_index e ≡ some n

unfoldable pub IsTracked : Dtlsr → EndpointId → Type 0
IsTracked s e = (n : ℕ) × (s.node_index e ≡ some n)

insert-same : (m : EndpointId → Option ℕ) (e : EndpointId) (n : ℕ) → insert m e n e ≡ some n
insert-same m e n = rw (eid_eq_refl e) refl

pub added_index :
    (m : EndpointId → Option ℕ) (xs : List EndpointId) (e f : EndpointId) (n : ℕ)
    → ((g : EndpointId) (k : ℕ) → m g ≡ some k → node_at xs k ≡ some g)
    → insert m e (length xs) f ≡ some n
    → node_at (xs ++ e ∷ []) n ≡ some f
added_index m xs e f n h =
    if-elim (λ (o : Option ℕ). o ≡ some n → node_at (xs ++ e ∷ []) n ≡ some f) (eid_eq f e) _ _
      (λ same q.
        subst (λ k. node_at (xs ++ e ∷ []) k ≡ some f) (some-injective _ _ q)
          (subst (λ g. node_at (xs ++ e ∷ []) (length xs) ≡ some g) (sym (eid_eq_sound f e same))
            (node_at-end xs e)))
      (λ _ q. node_at-left xs (e ∷ []) n f (h f n q))

pub added_found :
    (m : EndpointId → Option ℕ) (xs : List EndpointId) (e f : EndpointId) (n : ℕ)
    → m e ≡ none
    → ((g : EndpointId) (k : ℕ) → node_at xs k ≡ some g → m g ≡ some k)
    → node_at (xs ++ e ∷ []) n ≡ some f
    → insert m e (length xs) f ≡ some n
added_found m xs e f n new h q = elim (node_at-cases xs e f n q) [
  | inl before ↦ elim (Bool-cases (eid_eq f e)) [
    | inl same ↦
        let clash : m e ≡ some n =
          subst (λ g. m g ≡ some n) (eid_eq_sound f e same) (h f n before) in
        cc
    | inr other ↦ rw other (h f n before)
  ]
  | inr r ↦
      subst (λ g. insert m e (length xs) g ≡ some n) r.1
        (subst (λ k. insert m e (length xs) e ≡ some k) (sym r.0) (insert-same m e (length xs)))
]

add_node-IsIndexed :
    (s : Dtlsr) (e : EndpointId)
    → IsIndexed s
    → (o : Option ℕ) → s.node_index e ≡ o
    → IsIndexed (add_node s e o)
unfolding add_node
add_node-IsIndexed s e h (some n) q = h
add_node-IsIndexed s e h none q = record {
  started = omega arith;
  counted = omega (arith, h.counted, length-append s.index_node (e ∷ []));
  indexed = λ f n r.
      added_index s.node_index s.index_node e f n h.indexed
        (subst (λ k. insert s.node_index e k f ≡ some n) h.counted r);
  found = λ f n r.
      subst (λ k. insert s.node_index e k f ≡ some n) (sym h.counted)
        (added_found s.node_index s.index_node e f n q h.found r);
}

add_node-keeps :
    (s : Dtlsr) (e f : EndpointId) → IsTracked s f → (o : Option ℕ) → IsTracked (add_node s e o) f
unfolding add_node IsTracked
add_node-keeps s e f h (some n) = h
add_node-keeps s e f (n, h) none =
    if-elim (λ (o : Option ℕ). (k : ℕ) × (o ≡ some k)) (eid_eq f e) _ _ (λ _. (s.node_count, refl))
      (λ _. (n, h))

add_node-IsTracked :
    (s : Dtlsr) (e : EndpointId) (o : Option ℕ) → s.node_index e ≡ o → IsTracked (add_node s e o) e
unfolding add_node IsTracked
add_node-IsTracked s e (some n) q = (n, q)
add_node-IsTracked s e none q = (s.node_count, insert-same s.node_index e s.node_count)

pub new_node-IsIndexed : (s : Dtlsr) (e : EndpointId) → IsIndexed s → IsIndexed (new_node s e)
unfolding new_node
new_node-IsIndexed s e h = add_node-IsIndexed s e h (s.node_index e) refl

pub new_node-keeps : (s : Dtlsr) (e f : EndpointId) → IsTracked s f → IsTracked (new_node s e) f
unfolding new_node IsTracked
new_node-keeps s e f h = add_node-keeps s e f h (s.node_index e)

pub new_node-IsTracked : (s : Dtlsr) (e : EndpointId) → IsTracked (new_node s e) e
unfolding new_node
new_node-IsTracked s e = add_node-IsTracked s e (s.node_index e) refl
