-- ===== src/Generated/Promotion.antt =====
-- What an instance does when it becomes the leader.
use mathlib.Core.List.{append_assoc, append-nil}
use test_concurrent_reconcil.Base.{
  String, none, some, Option, List, [], ◌∷◌, ◌++◌, map, ◌≡◌, refl, sym, ap, ◌∙◌, Option-cases, inl,
  inr,
}
use test_concurrent_reconcil.Kube.{Error, Returns, Resource, M}
use test_concurrent_reconcil.Generated.Controller.{promote, enqueue_all}

module _ {Spec Status : Type 0} where
  abbrev pub key_of : Resource Spec Status → String × String
  key_of o = (o.meta.namespace, o.meta.name)

  -- The keys to put into the queue: of all objects if they could be listed.
  abbrev pub to_enqueue : List (Resource Spec Status) → Option Error → List (String × String)
  to_enqueue all none = map key_of all
  to_enqueue all (some failed) = []

module _ {W Spec Status : Type 0} where
  module _ (enq : String × String → M W (Unit {0})) (queue : W → List (String × String))
      (appends : (k : String × String) (w : W) → queue (enq k w).1 ≡ queue w ++ k ∷ []) where
    enqueue_all-map :
        (all : List (Resource Spec Status)) (w : W)
        → queue (enqueue_all enq all w).1 ≡ queue w ++ map key_of all
    enqueue_all-map [] w = sym (append-nil (queue w))
    enqueue_all-map (o ∷ all) w =
        enqueue_all-map all (enq (key_of o) w).1
        ∙ ap (λ q. q ++ map key_of all) (appends (key_of o) w)
        ∙ append_assoc (queue w) (key_of o ∷ []) (map key_of all)

    -- If putting a key into the queue appends it there, then an instance that is promoted appends
    -- the keys of all objects that it lists, in their order, or nothing if the listing fails; it
    -- returns the error of the listing.
    pub queue-promote :
        (list_everything : M W (Returns (List (Resource Spec Status)))) (w : W)
        → let ((all, err), after) = list_everything w in
          (queue (promote list_everything enq w).1 ≡ queue after ++ to_enqueue all err)
          × ((promote list_everything enq w).0 ≡ err)
    unfolding promote
    queue-promote list_everything w = elim (Option-cases (list_everything w).0.1) [
      | inl listed ↦
          simp listed (enqueue_all-map (list_everything w).0.0 (list_everything w).1, refl)
      | inr (failed, h) ↦ simp h (sym (append-nil (queue (list_everything w).1)), refl)
    ]
