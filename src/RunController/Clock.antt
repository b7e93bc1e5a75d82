-- ===== src/RunController/Clock.antt =====
-- The controller of Runs never sets the clock back.
use test_concurrent_reconcil.Base.{
  ◌≤◌, String, Bool, true, false, none, some, ◌≡◌, EqType, arith, if◌then◌else◌, ◌⊎◌, inl, inr,
  Bool-cases, Option-cases,
}
use test_concurrent_reconcil.Kube.{Returns, is_zero}
use test_concurrent_reconcil.Generated.Types.{Client, Library, ReconcilerImpl}
use test_concurrent_reconcil.Generated.Laws.{Documented}
use test_concurrent_reconcil.Generated.State.{
  do_reconcile_kind, unknown, new_state, new_state_from, state_for, reconcile_method_for,
}
use test_concurrent_reconcil.Generated.Finalizers.{set_finalizer_if_finalizer}
use test_concurrent_reconcil.Generated.Reconcile.{
  Flow, goes_on, returned, run_method, finish, process_found, process, reconcile,
}
use test_concurrent_reconcil.Generated.Clock.{finish-time}
use test_concurrent_reconcil.Generated.RunKind.{run_impl, run_reconcile}
use test_concurrent_reconcil.RunReconciler.Types.{
  Run, RunSpec, RunStatus, Emit, RunWorld, Reconciler,
}
use test_concurrent_reconcil.RunReconciler.Clock.{reconcile_kind-clock}
use test_concurrent_reconcil.RunController.{kind_method, run_controller}

module _ {S P C Cond T : Type 0} ⦃e : EqType (RunStatus C)⦄ (r : Reconciler S P C Cond)
    (lib : Library S (RunSpec P) (RunStatus C) (Emit Cond) T) (client : Client S (Run P C))
    (finalizer_name : String) (skips : Bool) (doc : Documented lib) where
  abbrev impl : ReconcilerImpl S (RunSpec P) (RunStatus C) (Emit Cond) T
  impl = run_impl (run_controller r lib client finalizer_name skips)

  finish-clock :
      (is_leader : Bool) (run : Run P C) (flow : Flow (Run P C)) (w : RunWorld S P C Cond)
      → w.time ≤ (finish impl is_leader run flow w).1.time
  unfolding finish
  finish-clock is_leader run (returned err) w = omega arith
  finish-clock is_leader run (goes_on o ev) w = finish-time impl doc run o is_leader ev w

  unknown-clock :
      (run : Run P C) (w : RunWorld S P C Cond) → w.time ≤ (run_method impl run unknown w).1.time
  unfolding run_method
  unknown-clock run w = omega arith

  -- The method for a leader, and none.
  reconcile-clock :
      (run : Run P C) (w : RunWorld S P C Cond)
      → w.time ≤ (run_method impl run (do_reconcile_kind (kind_method r)) w).1.time
  unfolding run_method set_finalizer_if_finalizer
  reconcile-clock run w =
      reconcile_kind-clock r (if skips then run else lib.pre_process_reconcile run) w

  -- job.go has the one method.
  method-cases :
      (key : String) (names : String × String) (leads : Bool) (run : Run P C)
      → let m = reconcile_method_for (state_for impl key names leads) run in
        (m ≡ do_reconcile_kind (kind_method r)) ⊎ (m ≡ unknown)
  unfolding reconcile_method_for
  method-cases key names true run = elim (Bool-cases (is_zero run.meta.deletion_timestamp)) [
    | inl present ↦ inl (rw present)
    | inr deleted ↦ inr (rw deleted)
  ]
  method-cases key names false run = elim (Bool-cases (is_zero run.meta.deletion_timestamp)) [
    | inl present ↦ inr (rw present)
    | inr deleted ↦ inr (rw deleted)
  ]

  run_method-clock :
      (key : String) (names : String × String) (leads : Bool) (run : Run P C)
      (w : RunWorld S P C Cond)
      → w.time
        ≤ (run_method impl run (reconcile_method_for (state_for impl key names leads) run) w).1.time
  run_method-clock key names leads run w = elim (method-cases key names leads run) [
    | inl does ↦ rw does (reconcile-clock run w)
    | inr nothing ↦ rw nothing (unknown-clock run w)
  ]

  process_found-clock :
      (key : String) (names : String × String) (leads : Bool) (found : Returns (Run P C))
      (w : RunWorld S P C Cond)
      → w.time ≤ (process_found impl (state_for impl key names leads) found w).1.time
  unfolding process_found
  process_found-clock key names leads (run, some err) w = omega arith
  process_found-clock key names leads (run, none) w =
      let (flow, v) =
        run_method impl run (reconcile_method_for (state_for impl key names leads) run) w in
      omega (arith, run_method-clock key names leads run w, finish-clock leads run flow v)

  new_state-invalid :
      (key : String) (w : RunWorld S P C Cond)
      → lib.split_meta_namespace_key key ≡ none
      → new_state key impl w ≡ (none, w)
  unfolding new_state
  new_state-invalid key w invalid = rw invalid

  -- `Reconcile` of any key, at any world: the clock stands at the same time or later.
  pub run_controller-clock :
      (key : String) (w : RunWorld S P C Cond)
      → w.time ≤ (run_reconcile (run_controller r lib client finalizer_name skips) key w).1.time
  unfolding run_reconcile reconcile process
  run_controller-clock key w = elim (Option-cases (lib.split_meta_namespace_key key)) [
    | inl invalid ↦ rw (new_state-invalid key w invalid) (omega arith)
    | inr (names, valid) ↦
        let (leads, s) = lib.is_leader_for names w.server in
        let (found, s') = lib.lister_get names.0 names.1 s in
        rw (new_state_from impl key names w valid)
          (ground (arith, process_found-clock key names leads found (record w { server = s' })))
  ]
