-- ===== src/Routing/Epidemic/Flooding.antt =====
-- algorithm.go: the peers that filterCLAs picks.
use dtn.Prelude.{
  ◌≡◌, refl, sym, subst, ◌∙◌, List, [], ◌∷◌, ◌++◌, append-nil, append_assoc, true, false, ◌||◌,
  if-elim, arith, All,
}
use dtn.Bpv7.Endpoint.{EndpointId, eid_eq, eid_eq_refl}
use dtn.Routing.Spray.{known}
use dtn.Routing.Epidemic.{filter_clas}

known-left :
    (e : EndpointId) (xs ys : List EndpointId) → known e xs ≡ true → known e (xs ++ ys) ≡ true
unfolding known
known-left e [] ys h = cc
known-left e (x ∷ xs) ys h =
    if-elim (λ b. eid_eq e x ≡ b → (eid_eq e x || known e (xs ++ ys)) ≡ true) (eid_eq e x) true
      false (λ _ same. ground (arith, same))
      (λ _ other.
        let rest : known e xs ≡ true = ground (arith, h, other) in
        let later = known-left e xs ys rest in ground (arith, other, later))
      (if-elim (λ b. eid_eq e x ≡ b) (eid_eq e x) true false (λ s. s) (λ s. s))

known-end : (e : EndpointId) (xs : List EndpointId) → known e (xs ++ e ∷ []) ≡ true
unfolding known
known-end e [] = ground (arith, eid_eq_refl e)
known-end e (x ∷ xs) = let later = known-end e xs in ground (arith, later)

-- The picked peers, one after the other: each is not among those that had the bundle at its turn.
pub Fresh : List EndpointId → List EndpointId → Type 0
Fresh sent [] = Unit
Fresh sent (x ∷ xs) = (known x sent ≡ false) × Fresh (sent ++ x ∷ []) xs

pub record Filtered (sent css : List EndpointId) (r : List EndpointId × List EndpointId)
    : Type 0 where
  pub noted : r.1 ≡ sent ++ r.0
  pub served : All (λ cs. known cs r.1 ≡ true) css
  pub fresh : Fresh sent r.0

-- filterCLAs notes exactly the peers that it picks, behind those that had the bundle; each picked peer
-- was not noted before, so none is picked twice; and then every peer that is there is noted.
pub filter_clas-Filtered : (sent css : List EndpointId) → Filtered sent css (filter_clas sent css)
unfolding filter_clas Fresh
filter_clas-Filtered sent [] = record { noted = sym (append-nil sent); served = tt; fresh = tt }
filter_clas-Filtered sent (cs ∷ css) =
    if-elim (Filtered sent (cs ∷ css)) (known cs sent) _ _
      (λ old.
        let r = filter_clas-Filtered sent css in
        record {
          noted = r.noted;
          served =
              (subst (λ l. known cs l ≡ true) (sym r.noted) (known-left cs sent _ old), r.served);
          fresh = r.fresh;
        })
      (λ new.
        let r = filter_clas-Filtered (sent ++ cs ∷ []) css in
        record {
          noted = r.noted ∙ append_assoc sent (cs ∷ []) _;
          served = (
            subst (λ l. known cs l ≡ true) (sym r.noted)
                (known-left cs (sent ++ cs ∷ []) _ (known-end cs sent)),
            r.served,
          );
          fresh = (new, r.fresh);
        })

nobody_new :
    (sent css : List EndpointId)
    → All (λ cs. known cs sent ≡ true) css
    → filter_clas sent css ≡ ([], sent)
unfolding filter_clas
nobody_new sent [] h = refl
nobody_new sent (cs ∷ css) (old, h) = rw old (nobody_new sent css h)

-- When filterCLAs is asked again with the peers that it noted, it picks nobody.
pub filter_clas-filter_clas :
    (sent css : List EndpointId)
    → filter_clas (filter_clas sent css).1 css ≡ ([], (filter_clas sent css).1)
filter_clas-filter_clas sent css = nobody_new _ css (filter_clas-Filtered sent css).served
