-- ===== src/Routing/Epidemic/Keeping.antt =====
-- algorithm_epidemic.go: what flooding leaves as it is.
use dtn.Prelude.{
  ℕ, ◌≡◌, refl, sym, subst, ap, ◌∙◌, List, some, Bool, true, false, ok, ok-injective, >>=-eq-ok,
}
use dtn.Bpv7.Endpoint.{EndpointId}
use dtn.Bpv7.Bundle.{Bundle, BundleId, scrub}
use dtn.Storage.{BundleItem, BundlePart, Store, query_id}
use dtn.Routing.Spray.{remove_first}
use dtn.Routing.Descriptor.{Properties, Descriptor, dropped, item_of}
use dtn.Routing.Descriptor.Sync.{IsStored, with_item, with_item-IsStored, update_known, own_item}
use dtn.Routing.Core.{Core, Memory, Choice}
use dtn.Routing.Epidemic.{
  filter_clas, sent_eids, with_sent, updated, clas_for_item, clas_for_bundle, sender_for_bundle,
  failure_at, report_failure, item, epidemic,
}
use dtn.Routing.Processing.State.{Node}
use dtn.Routing.Processing.Primary.{KeepsPrimary}
use dtn.Routing.Processing.Retention.{IsHeld, KeepsItem}

module _ (path : BundleId → ℕ) (fails : ℕ → Bool) (core : Core) where
  updated_stored :
      (m : Memory (Unit {0})) (id : BundleId) (bi : BundleItem Properties) (sent : List EndpointId)
      → IsStored path fails m.store id bi
      → updated path fails core m (with_sent bi sent)
        ≡ ok (record m { store = with_item path fails m.store (with_sent bi sent) })
  unfolding updated dropped
  updated_stored m id bi sent h =
      rw
        (update_known path fails m.store (with_sent bi sent) bi
          (own_item path fails m.store id bi h))
        refl

  found_item :
      (s : Store Properties) (id : BundleId) (bi : BundleItem Properties)
      → IsStored path fails s id bi
      → item_of path fails s id ≡ some bi
  unfolding query_id scrub
  found_item s id bi h = h.found

  chosen_lem :
      (m : Memory (Unit {0})) (d : Descriptor) (b : Bundle) (bi : BundleItem Properties)
      → IsStored path fails m.store d.id bi
      → sender_for_bundle path fails core m d b
        ≡ ok record {
          chosen = (filter_clas (sent_eids bi) core.senders).0;
          delete_afterwards = false;
          memory = record m {
            store =
                with_item path fails m.store
                  (with_sent bi (filter_clas (sent_eids bi) core.senders).1);
          };
          bundle = b;
        }
  unfolding sender_for_bundle clas_for_bundle
  chosen_lem m d b bi h =
      rw (found_item m.store d.id bi h, clas_for_item)
        (rw (updated_stored m d.id bi (filter_clas (sent_eids bi) core.senders).1 h) refl)

  failed_lem :
      (m : Memory (Unit {0})) (d : Descriptor) (peer : EndpointId) (b : Bundle)
      (bi : BundleItem Properties)
      → IsStored path fails m.store d.id bi
      → report_failure path fails core m d peer b
        ≡ ok (
          record m {
            store = with_item path fails m.store (with_sent bi (remove_first peer (sent_eids bi)));
          },
          b,
        )
  unfolding report_failure
  failed_lem m d peer b bi h =
      rw (found_item m.store d.id bi h, failure_at)
        (rw (updated_stored m d.id bi (remove_first peer (sent_eids bi)) h) refl)

-- A node that floods.
abbrev pub flooding : Node (Unit {0}) → Node (Unit {0})
flooding node = record node { algorithm = epidemic node.path node.fails node.core }

module _ (node : Node (Unit {0})) where
  open node use {path, fails, core}

  pub flooding-KeepsPrimary : KeepsPrimary (flooding node).algorithm
  unfolding sender_for_bundle report_failure
  flooding-KeepsPrimary = record {
    chosen_same = λ m d b c h.
        let (x, chosen, eq) = >>=-eq-ok (clas_for_bundle path fails core m d true) _ h in
        sym (ap (λ (c : Choice (Unit {0})). c.bundle.primary_block) (ok-injective eq));
    failed_same = λ m d peer b m' b' h.
        let (x, failed, eq) =
          >>=-eq-ok (failure_at path fails core m peer (item path fails core m d)) _ h in
        sym (ap (λ p. p.1.primary_block) (ok-injective eq));
  }

  sent-IsHeld :
      (s : Store Properties) (id : BundleId) (parts : List BundlePart) (sent : List EndpointId)
      (held : IsHeld (flooding node) s id parts)
      → IsHeld (flooding node) (with_item path fails s (with_sent held.item sent)) id parts
  sent-IsHeld s id parts sent held = record {
    item = with_sent held.item sent;
    stored = with_item-IsStored path fails s id (with_sent held.item sent) held.stored.own_id;
    same_parts = held.same_parts;
  }

  pub flooding-KeepsItem : KeepsItem (flooding node)
  flooding-KeepsItem = record {
    chosen_held = λ m d b c parts held h.
        subst (λ (c : Choice (Unit {0})). IsHeld (flooding node) c.memory.store d.id parts)
          (ok-injective (sym (chosen_lem path fails core m d b held.item held.stored) ∙ h))
          (sent-IsHeld m.store d.id parts _ held);
    failed_held = λ m d peer b m' b' parts held h.
        subst (λ (m : Memory (Unit {0})). IsHeld (flooding node) m.store d.id parts)
          (ap (λ p. p.0)
            (ok-injective (sym (failed_lem path fails core m d peer b held.item held.stored) ∙ h)))
          (sent-IsHeld m.store d.id parts _ held);
  }
