-- ===== src/Routing/Processing/Primary.antt =====
-- processing.go: what leaves the primary block of a bundle as it is.
use dtn.Prelude.{
  ℕ, ◌≡◌, refl, ap, sym, ◌∙◌, subst, List, [], ◌∷◌, Option, none, some, Bool, true, false, ok,
  >>=-eq-ok, ok-injective, if◌then◌else◌, if-elim,
}
use dtn.Bpv7.Flags.{has, administrative_record_payload}
use dtn.Bpv7.Endpoint.{EndpointId}
use dtn.Bpv7.Block.{CanonicalBlock}
use dtn.Bpv7.Bundle.{Bundle, add_extension_block}
use dtn.Routing.Descriptor.{Descriptor, descriptor_bundle, bundle_at, Properties}
use dtn.Storage.{Store}
use dtn.Routing.Core.{Memory, Choice, Algorithm, World}
use dtn.Routing.Processing.Blocks.{
  assert_hop_count, assert_bundle_age, assert_previous_node, count_hop, uncount_hop, update_age,
  set_previous_node, is_administrative_record,
}
use dtn.Routing.Processing.Forwarding.{choose, send_one, send_all}
use dtn.Routing.Processing.State.{Node, Sending}

abbrev pub SamePrimary : Bundle → Bundle → Type 0
SamePrimary b b' = b'.primary_block ≡ b.primary_block

pub count_hop-SamePrimary :
    (b : Bundle) (o : Option CanonicalBlock) {b' : Bundle} {e : Bool}
    → count_hop b o ≡ ok (b', e)
    → SamePrimary b b'
unfolding count_hop
count_hop-SamePrimary b none h = sym (ap (λ p. p.0.primary_block) (ok-injective h))
count_hop-SamePrimary b (some cb) h =
    let (x, asserted, eq) = >>=-eq-ok (assert_hop_count cb.value) _ h in
    sym (ap (λ p. p.0.primary_block) (ok-injective eq))

pub uncount_hop-SamePrimary :
    (b : Bundle) (o : Option CanonicalBlock) {b' : Bundle}
    → uncount_hop b o ≡ ok b'
    → SamePrimary b b'
unfolding uncount_hop
uncount_hop-SamePrimary b none h = sym (ap (λ p. p.primary_block) (ok-injective h))
uncount_hop-SamePrimary b (some cb) h =
    let (x, asserted, eq) = >>=-eq-ok (assert_hop_count cb.value) _ h in
    sym (ap (λ p. p.primary_block) (ok-injective eq))

pub update_age-SamePrimary :
    (now received : ℕ) (b : Bundle) (o : Option CanonicalBlock) {b' : Bundle} {age : Option ℕ}
    → update_age now received b o ≡ ok (b', age)
    → SamePrimary b b'
unfolding update_age
update_age-SamePrimary now received b none h = sym (ap (λ p. p.0.primary_block) (ok-injective h))
update_age-SamePrimary now received b (some cb) h =
    let (x, asserted, eq) = >>=-eq-ok (assert_bundle_age cb.value) _ h in
    sym (ap (λ p. p.0.primary_block) (ok-injective eq))

pub set_previous_node-SamePrimary :
    (e : EndpointId) (b : Bundle) (o : Option CanonicalBlock) {b' : Bundle}
    → set_previous_node e b o ≡ ok b'
    → SamePrimary b b'
unfolding set_previous_node add_extension_block
set_previous_node-SamePrimary e b none h = sym (ap (λ p. p.primary_block) (ok-injective h))
set_previous_node-SamePrimary e b (some cb) h =
    let (x, asserted, eq) = >>=-eq-ok (assert_previous_node cb.value) _ h in
    sym (ap (λ p. p.primary_block) (ok-injective eq))

-- An algorithm that leaves the primary block of a bundle as it is.
pub record KeepsPrimary {S : Type 0} (a : Algorithm S) : Type 0 where
  pub chosen_same :
      (m : Memory S) (d : Descriptor) (b : Bundle) (c : Choice S)
      → a.sender_for_bundle m d b ≡ ok c
      → SamePrimary b c.bundle
  pub failed_same :
      (m : Memory S) (d : Descriptor) (peer : EndpointId) (b : Bundle) (m' : Memory S) (b' : Bundle)
      → a.report_failure m d peer b ≡ ok (m', b')
      → SamePrimary b b'

pub admin_kept :
    (b b' : Bundle)
    → SamePrimary b b'
    → is_administrative_record b ≡ true
    → is_administrative_record b' ≡ true
unfolding is_administrative_record
admin_kept b b' same admin =
    subst (λ p. has p.bundle_control_flags administrative_record_payload ≡ true) (sym same) admin

pub if-cong {ℓ} :
    {A : Type ℓ} (t : Bool) (x x' y y' : A)
    → x ≡ x'
    → y ≡ y'
    → (if t then x else y) ≡ (if t then x' else y')
if-cong true x x' y y' hx hy = hx
if-cong false x x' y y' hx hy = hy

pub descriptor_bundle-here :
    {S : Type 0} (node : Node S) (s : Store Properties) (d : Descriptor) (b : Bundle)
    → d.bndl ≡ some b
    → descriptor_bundle node.path node.fails node.now s d ≡ ok b
unfolding descriptor_bundle
descriptor_bundle-here node s d b h = rw (h, bundle_at) refl

module _ {S : Type 0} (node : Node S) (keeps : KeepsPrimary node.algorithm) where
  open node use {core, now}

  pub send_one-SamePrimary :
      (d : Descriptor) (peer : EndpointId) (s : Sending S) {s' : Sending S}
      → send_one node d peer s ≡ ok s'
      → SamePrimary s.bundle s'.bundle
  unfolding send_one
  send_one-SamePrimary d peer s {s'} h =
      if-elim (λ r. r ≡ ok s' → SamePrimary s.bundle s'.bundle)
        (node.sends s.world.trace peer s.bundle) _ _
        (λ _ e. sym (ap (λ p. p.bundle.primary_block) (ok-injective e)))
        (λ _ e.
          let (x, failed, eq) =
            >>=-eq-ok (node.algorithm.report_failure s.world.memory _ peer s.bundle) _ e in
          sym (ap (λ p. p.bundle.primary_block) (ok-injective eq))
          ∙ keeps.failed_same _ _ _ _ _ _ failed)
        h

  pub send_all-SamePrimary :
      (d : Descriptor) (peers : List EndpointId) (s : Sending S) {s' : Sending S}
      → send_all node d peers s ≡ ok s'
      → SamePrimary s.bundle s'.bundle
  unfolding send_all
  send_all-SamePrimary d [] s h = sym (ap (λ p. p.bundle.primary_block) (ok-injective h))
  send_all-SamePrimary d (peer ∷ peers) s h =
      let (s1, first, rest) = >>=-eq-ok (send_one node d peer s) _ h in
      send_all-SamePrimary d peers s1 rest ∙ send_one-SamePrimary d peer s first

  pub choose-SamePrimary :
      (d : Descriptor) (b : Bundle) (w : World S) (direct : List EndpointId) {c : Choice S}
      → choose node d b w direct ≡ ok c
      → SamePrimary b c.bundle
  unfolding choose
  choose-SamePrimary d b w [] h = keeps.chosen_same _ _ _ _ h
  choose-SamePrimary d b w (cs ∷ css) h = sym (ap (λ p. p.bundle.primary_block) (ok-injective h))
