-- ===== src/Generated/Leadership.antt =====
-- An instance that is not the leader of a key leaves the API server alone.
use test_concurrent_reconcil.Base.{
  String, Bool, false, Option, none, some, ◌≡◌, refl, ◌∙◌, EqType, arith, Bool-cases, inl, inr,
}
use test_concurrent_reconcil.Kube.{Resource, Returns, writes}
use test_concurrent_reconcil.Generated.Types.{KindWorld, DoReconcile, ReconcilerImpl}
use test_concurrent_reconcil.Generated.State.{
  State, Method, is_not_leader_nor_observer, reconcile_method_for, state_for, new_state_from,
}
use test_concurrent_reconcil.Generated.Reconcile.{
  Flow, returned, goes_on, run_method, finish, process_found, process, reconcile,
}
use test_concurrent_reconcil.Generated.Selection.{
  Selects, reconciles, observes, finalizes, observes_finalize, ignores_live, ignores_deleted,
  ignores_deleted_elsewhere, selects,
}

module _ {S Spec Status X : Type 0} where
  -- "This method should not write to the API."
  abbrev pub IsQuiet :
      Option (DoReconcile (KindWorld S Spec Status X) (Resource Spec Status)) → Type 0
  IsQuiet none = Unit
  IsQuiet (some f) =
      (o : Resource Spec Status) (w : KindWorld S Spec Status X)
      → writes (f o w).1.trace ≡ writes w.trace

module _ {S Spec Status X T : Type 0} ⦃e : EqType Status⦄
    (r : ReconcilerImpl S Spec Status X T) where
  finish-quiet :
      (is_leader : Bool) (original : Resource Spec Status) (flow : Flow (Resource Spec Status))
      (w : KindWorld S Spec Status X)
      → is_leader ≡ false
      → writes (finish r is_leader original flow w).1.trace ≡ writes w.trace
  unfolding finish
  finish-quiet b original (returned err) w away = refl
  finish-quiet b original (goes_on resource none) w away = ground arith
  finish-quiet b original (goes_on resource (some failed)) w away = ground arith

  run_method-quiet :
      {s : State (KindWorld S Spec Status X) (Resource Spec Status)}
      {original : Resource Spec Status}
      {m : Method (KindWorld S Spec Status X) (Resource Spec Status)}
      → Selects s original m
      → s.is_leader ≡ false
      → IsQuiet s.roi
      → IsQuiet s.rof
      → (w : KindWorld S Spec Status X)
      → writes (run_method r original m w).1.trace ≡ writes w.trace
  unfolding run_method
  run_method-quiet (reconciles z l) away qi qf w = cc
  run_method-quiet {original} (observes f z l p) away qi qf w = (rw p at qi) original w
  run_method-quiet (finalizes f z l p) away qi qf w = cc
  run_method-quiet {original} (observes_finalize f z l p) away qi qf w = (rw p at qf) original w
  run_method-quiet (ignores_live z l p) away qi qf w = refl
  run_method-quiet (ignores_deleted z l p) away qi qf w = refl
  run_method-quiet (ignores_deleted_elsewhere z l p) away qi qf w = refl

  process_found-quiet :
      (s : State (KindWorld S Spec Status X) (Resource Spec Status))
      (found : Returns (Resource Spec Status))
      → s.is_leader ≡ false
      → IsQuiet s.roi
      → IsQuiet s.rof
      → (w : KindWorld S Spec Status X)
      → writes (process_found r s found w).1.trace ≡ writes w.trace
  unfolding process_found
  process_found-quiet s (original, none) away qi qf w =
      let (flow, v) = run_method r original (reconcile_method_for s original) w in
      finish-quiet s.is_leader original flow v away
      ∙ run_method-quiet (selects s original) away qi qf w
  process_found-quiet s (original, some failed) away qi qf w = refl

  process-quiet :
      (s : State (KindWorld S Spec Status X) (Resource Spec Status)) (key : String)
      → s.is_leader ≡ false
      → IsQuiet s.roi
      → IsQuiet s.rof
      → (w : KindWorld S Spec Status X) → writes (process r (some s) key w).1.trace ≡ writes w.trace
  unfolding process
  process-quiet s key away qi qf w = elim (Bool-cases (is_not_leader_nor_observer s)) [
    | inl idle ↦ simp idle refl
    | inr busy ↦
        simp busy
          (process_found-quiet s (r.library.lister_get s.namespace s.name w.server).0 away qi qf _)
  ]

  -- An instance that is not the leader of a key writes nothing to the API server when it
  -- reconciles the key, whatever the lister holds and whatever the observing methods return, if
  -- those methods write nothing themselves.
  pub reconcile-quiet :
      (key : String) (names : String × String) (w : KindWorld S Spec Status X)
      → IsQuiet r.reconciler.read_only_interface
      → IsQuiet r.reconciler.read_only_finalizer
      → (r.library.is_leader_for names w.server).0 ≡ false
      → r.library.split_meta_namespace_key key ≡ some names
      → writes (reconcile r key w).1.trace ≡ writes w.trace
  unfolding reconcile
  reconcile-quiet key names w qi qf away valid =
      rw (new_state_from r key names w valid)
        (process-quiet (state_for r key names _) key away qi qf _)
