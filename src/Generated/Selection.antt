-- ===== src/Generated/Selection.antt =====
-- Which method of a kind's reconciler is called for an object.
use mathlib.Core.Path.{subst, sym}
use test_concurrent_reconcil.Base.{
  true, false, none, some, ◌≡◌, ◌↔◌, Bool-cases, Option-cases, inl, inr,
}
use test_concurrent_reconcil.Kube.{Resource, is_zero}
use test_concurrent_reconcil.Generated.Types.{DoReconcile}
use test_concurrent_reconcil.Generated.State.{
  State, Method, do_reconcile_kind, do_observe_kind, do_finalize_kind, do_observe_finalize_kind,
  unknown, reconcile_method_for,
}

module _ {W Spec Status : Type 0} where
  -- The table of the generated comments: live objects are reconciled by the leader and observed by
  -- others, objects being deleted are finalized by the leader and observed by others, each where
  -- the kind's reconciler implements the interface.
  pub data Selects (s : State W (Resource Spec Status)) (o : Resource Spec Status)
      : Method W (Resource Spec Status) → Type 0 where
    reconciles :
        is_zero o.meta.deletion_timestamp ≡ true
        → s.is_leader ≡ true
        → Selects s o (do_reconcile_kind s.reconciler.reconcile_kind)
    observes :
        (f : DoReconcile W (Resource Spec Status))
        → is_zero o.meta.deletion_timestamp ≡ true
        → s.is_leader ≡ false
        → s.roi ≡ some f
        → Selects s o (do_observe_kind f)
    finalizes :
        (f : DoReconcile W (Resource Spec Status))
        → is_zero o.meta.deletion_timestamp ≡ false
        → s.is_leader ≡ true
        → s.reconciler.finalizer ≡ some f
        → Selects s o (do_finalize_kind f)
    observes_finalize :
        (f : DoReconcile W (Resource Spec Status))
        → is_zero o.meta.deletion_timestamp ≡ false
        → s.is_leader ≡ false
        → s.rof ≡ some f
        → Selects s o (do_observe_finalize_kind f)
    ignores_live :
        is_zero o.meta.deletion_timestamp ≡ true
        → s.is_leader ≡ false
        → s.roi ≡ none
        → Selects s o unknown
    ignores_deleted :
        is_zero o.meta.deletion_timestamp ≡ false
        → s.is_leader ≡ true
        → s.reconciler.finalizer ≡ none
        → Selects s o unknown
    ignores_deleted_elsewhere :
        is_zero o.meta.deletion_timestamp ≡ false
        → s.is_leader ≡ false
        → s.rof ≡ none
        → Selects s o unknown

  Selects-unique :
      {s : State W (Resource Spec Status)} {o : Resource Spec Status}
      {m : Method W (Resource Spec Status)}
      → Selects s o m
      → reconcile_method_for s o ≡ m
  unfolding reconcile_method_for
  Selects-unique (reconciles z l) = rw (z, l)
  Selects-unique (observes f z l p) = rw (z, l, p)
  Selects-unique (finalizes f z l p) = rw (z, l, p)
  Selects-unique (observes_finalize f z l p) = rw (z, l, p)
  Selects-unique (ignores_live z l p) = rw (z, l, p)
  Selects-unique (ignores_deleted z l p) = rw (z, l, p)
  Selects-unique (ignores_deleted_elsewhere z l p) = rw (z, l, p)

  selected :
      {s : State W (Resource Spec Status)} {o : Resource Spec Status}
      {m : Method W (Resource Spec Status)}
      → Selects s o m
      → Selects s o (reconcile_method_for s o)
  selected {s} {o} sel = subst (Selects s o) (sym (Selects-unique sel)) sel

  Selects-live :
      (s : State W (Resource Spec Status)) (o : Resource Spec Status)
      → is_zero o.meta.deletion_timestamp ≡ true
      → Selects s o (reconcile_method_for s o)
  Selects-live s o z = elim (Bool-cases s.is_leader) [
    | inl l ↦ selected (reconciles z l)
    | inr l ↦ elim (Option-cases s.roi) [
      | inl absent ↦ selected (ignores_live z l absent)
      | inr (f, present) ↦ selected (observes f z l present)
    ]
  ]

  Selects-deleted :
      (s : State W (Resource Spec Status)) (o : Resource Spec Status)
      → is_zero o.meta.deletion_timestamp ≡ false
      → Selects s o (reconcile_method_for s o)
  Selects-deleted s o z = elim (Bool-cases s.is_leader) [
    | inl l ↦ elim (Option-cases s.reconciler.finalizer) [
      | inl absent ↦ selected (ignores_deleted z l absent)
      | inr (f, present) ↦ selected (finalizes f z l present)
    ]
    | inr l ↦ elim (Option-cases s.rof) [
      | inl absent ↦ selected (ignores_deleted_elsewhere z l absent)
      | inr (f, present) ↦ selected (observes_finalize f z l present)
    ]
  ]

  pub selects :
      (s : State W (Resource Spec Status)) (o : Resource Spec Status)
      → Selects s o (reconcile_method_for s o)
  selects s o = elim (Bool-cases (is_zero o.meta.deletion_timestamp)) [
    | inl z ↦ Selects-live s o z
    | inr z ↦ Selects-deleted s o z
  ]

  -- `reconcileMethodFor` returns a method exactly when the table selects it: it is total and the
  -- table has one entry for each leader and object.
  pub reconcile_method_for_iff :
      (s : State W (Resource Spec Status)) (o : Resource Spec Status)
      (m : Method W (Resource Spec Status))
      → (reconcile_method_for s o ≡ m) ↔ Selects s o m
  reconcile_method_for_iff s o m =
      (λ p. subst (Selects s o) p (selects s o), λ sel. Selects-unique sel)
