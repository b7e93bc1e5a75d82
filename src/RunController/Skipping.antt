-- ===== src/RunController/Skipping.antt =====
-- What the whole controller does with a Run that is not due or not its business.
use test_concurrent_reconcil.Base.{
  ℕ, ◌+◌, ◌*◌, ◌<◌, ◌≤◌, String, Bool, true, false, Option, none, some, List, [], ◌∷◌, ◌++◌, ◌≡◌,
  refl, ap, ◌∙◌, EqType, Option-cases, Bool-cases, inl, inr, le→ltb, lt→ltb, arith,
}
use test_concurrent_reconcil.Kube.{
  Action, Error, error_text, event_type_warning, record_event, is_zero,
}
use test_concurrent_reconcil.Generated.Types.{Client, Library, ReconcilerImpl}
use test_concurrent_reconcil.Generated.Laws.{Documented}
use test_concurrent_reconcil.Generated.State.{
  new_state_from, state_for, do_reconcile_kind, reconcile_method_for, is_not_leader_nor_observer,
}
use test_concurrent_reconcil.Generated.Finalizers.{set_finalizer_if_finalizer}
use test_concurrent_reconcil.Generated.Reconcile.{
  goes_on, run_method, synchronize_status, report, finish, process_found, process, reconcile,
}
use test_concurrent_reconcil.Generated.RunKind.{run_impl, run_reconcile}
use test_concurrent_reconcil.RunReconciler.Types.{
  Run, RunSpec, RunStatus, Emit, RunWorld, second, Reconciler,
}
use test_concurrent_reconcil.RunReconciler.Invoke.{value}
use test_concurrent_reconcil.RunReconciler.Kind.{
  fake_error, too_early, refers_to_job, reconcile_kind,
}
use test_concurrent_reconcil.RunReconciler.Throttle.{second_reading, reconcile_kind-too_early}
use test_concurrent_reconcil.RunController.{kind_method, run_controller}

module _ {S P C Cond : Type 0} (r : Reconciler S P C Cond) where
  abbrev pub requeued : Error
  requeued = r.tekton.append none fake_error

module _ {S P C Cond : Type 0} (r : Reconciler S P C Cond) (run : Run P C) where
  -- The Run was started less than five seconds ago, or it was not and refers to no Job.
  pub data IsSkipped (reading : ℕ) : Type 0 where
    early :
        (since : ℕ)
        → run.status.start_time ≡ some since
        → reading < since + 5 * second
        → IsSkipped reading
    elsewhere :
        ((since : ℕ) → run.status.start_time ≡ some since → since + 5 * second ≤ reading)
        → refers_to_job r run.spec.ref ≡ false
        → IsSkipped reading

  -- What the controller returns, and what it adds to the trace.
  abbrev pub skipped_result : {reading : ℕ} → IsSkipped reading → Option Error
  skipped_result (early since p h) = some (requeued r)
  skipped_result (elsewhere due h) = none

  abbrev pub skipped_trace : {reading : ℕ} → IsSkipped reading → List (Action (Run P C) (Emit Cond))
  skipped_trace (early since p h) =
      record_event run event_type_warning "InternalError" "" (error_text (requeued r) ∷ []) ∷ []
  skipped_trace (elsewhere due h) = []

  reconcile_kind-elsewhere :
      (w : RunWorld S P C Cond)
      → ((since : ℕ) → run.status.start_time ≡ some since → since + 5 * second ≤ second_reading w)
      → refers_to_job r run.spec.ref ≡ false
      → ((reconcile_kind r run w).0 ≡ value (run, none))
        × ((reconcile_kind r run w).1.trace ≡ w.trace)
        × ((reconcile_kind r run w).1.server ≡ w.server)
  unfolding reconcile_kind too_early
  reconcile_kind-elsewhere w due other = elim (Option-cases run.status.start_time) [
    | inl unset ↦ simp (unset, other) (refl, refl, refl)
    | inr (since, p) ↦ simp p (simp (le→ltb _ _ (due since p)) (simp other (refl, refl, refl)))
  ]

  reconcile_kind-early_server :
      (since : ℕ) (w : RunWorld S P C Cond)
      → run.status.start_time ≡ some since
      → second_reading w < since + 5 * second
      → (reconcile_kind r run w).1.server ≡ w.server
  unfolding reconcile_kind too_early
  reconcile_kind-early_server since w started h = simp started (simp (lt→ltb _ _ h) refl)

  method-skipped :
      (w : RunWorld S P C Cond) (s : IsSkipped (second_reading w))
      → ((kind_method r run w).0 ≡ (run, skipped_result s))
        × ((kind_method r run w).1.trace ≡ w.trace)
        × ((kind_method r run w).1.server ≡ w.server)
  method-skipped w (early since p h) =
      let (outcome, trace) = reconcile_kind-too_early r run since w p h in
      (rw outcome refl, trace, reconcile_kind-early_server since w p h)
  method-skipped w (elsewhere due h) =
      let (outcome, trace, server) = reconcile_kind-elsewhere w due h in
      (rw outcome refl, trace, server)

-- The names that the key holds, a world in which this instance leads for them, and the Run that the
-- lister then has: not deleted, and left as it is by the processing before and after.
pub record IsFound {S P C Cond T : Type 0} (lib : Library S (RunSpec P) (RunStatus C) (Emit Cond) T)
    (key : String) (run : Run P C) (w : RunWorld S P C Cond) : Type 0 where
  pub names : String × String
  pub valid : lib.split_meta_namespace_key key ≡ some names
  pub leads : (lib.is_leader_for names w.server).0 ≡ true
  pub listed : (lib.lister_get names.0 names.1 (lib.is_leader_for names w.server).1).0 ≡ (run, none)
  pub not_deleted : is_zero run.meta.deletion_timestamp ≡ true
  pub before : lib.pre_process_reconcile run ≡ run
  pub after : lib.post_process_reconcile run run ≡ run

module _ {S P C Cond T : Type 0} ⦃e : EqType (RunStatus C)⦄ (r : Reconciler S P C Cond)
    (lib : Library S (RunSpec P) (RunStatus C) (Emit Cond) T) (client : Client S (Run P C))
    (finalizer_name : String) (skip_status_updates : Bool) where
  abbrev impl : ReconcilerImpl S (RunSpec P) (RunStatus C) (Emit Cond) T
  impl = run_impl (run_controller r lib client finalizer_name skip_status_updates)

  module _ (doc : Documented lib) (no_event : lib.event_as (requeued r) ≡ none) (run : Run P C)
      (before : lib.pre_process_reconcile run ≡ run)
      (after : lib.post_process_reconcile run run ≡ run) (w : RunWorld S P C Cond)
      (s : IsSkipped r run (second_reading w)) where
    run_method-skipped :
        let (flow, w') = run_method impl run (do_reconcile_kind (kind_method r)) w in
        (flow ≡ goes_on run (skipped_result r run s))
        × (w'.trace ≡ w.trace)
        × (w'.server ≡ w.server)
    unfolding run_method set_finalizer_if_finalizer
    run_method-skipped =
        let (result, trace, server) = method-skipped r run w s in
        elim (Bool-cases skip_status_updates) [
          | inl skips ↦ simp skips (rw result (refl, trace, server))
          | inr keeps ↦ simp keeps (rw (before, result, after) (refl, trace, server))
        ]

    synchronized : (v : RunWorld S P C Cond) → synchronize_status impl true run run v ≡ (none, v)
    unfolding synchronize_status
    synchronized v = ground (arith, doc.semantic_refl run.status)

    reported :
        {reading : ℕ} (skip : IsSkipped r run reading) (v : RunWorld S P C Cond)
        → let (res, w') = report impl run (skipped_result r run skip) v in
          (res ≡ skipped_result r run skip)
          × (w'.trace ≡ skipped_trace r run skip ++ v.trace)
          × (w'.server ≡ v.server)
    unfolding report
    reported (early since p h) v = simp no_event (refl, refl, refl)
    reported (elsewhere due h) v = (refl, refl, refl)

    finish-skipped :
        (v : RunWorld S P C Cond)
        → let (res, w') = finish impl true run (goes_on run (skipped_result r run s)) v in
          (res ≡ skipped_result r run s)
          × (w'.trace ≡ skipped_trace r run s ++ v.trace)
          × (w'.server ≡ v.server)
    unfolding finish
    finish-skipped v = rw (synchronized v) (reported s v)

    process_found-skipped :
        (key : String) (names : String × String)
        → is_zero run.meta.deletion_timestamp ≡ true
        → let (res, w') = process_found impl (state_for impl key names true) (run, none) w in
          (res ≡ skipped_result r run s)
          × (w'.trace ≡ skipped_trace r run s ++ w.trace)
          × (w'.server ≡ w.server)
    unfolding process_found reconcile_method_for
    process_found-skipped key names present =
        let (flow, trace, server) = run_method-skipped in
        let v = (run_method impl run (do_reconcile_kind (kind_method r)) w).1 in
        let (res, after_report, kept) = finish-skipped v in
        rw (present, flow)
          (res, after_report ∙ ap (λ l. skipped_trace r run s ++ l) trace, kept ∙ server)

  -- The world that the reads of the leadership and of the lister leave.
  abbrev looked_up : String × String → RunWorld S P C Cond → RunWorld S P C Cond
  looked_up names w = record w {
    server = (lib.lister_get names.0 names.1 (lib.is_leader_for names w.server).1).1;
  }

  pub run_controller-skipped :
      Documented lib
      → lib.event_as (requeued r) ≡ none
      → (key : String) (run : Run P C) (w : RunWorld S P C Cond) (found : IsFound lib key run w)
        (s : IsSkipped r run (second_reading w))
      → let (res, w') =
          run_reconcile (run_controller r lib client finalizer_name skip_status_updates) key w in
        (res ≡ skipped_result r run s)
        × (w'.trace ≡ skipped_trace r run s ++ w.trace)
        × (w'.server ≡ (looked_up found.names w).server)
  unfolding run_reconcile reconcile process is_not_leader_nor_observer
  run_controller-skipped doc no_event key run w found s =
      rw (new_state_from impl key found.names w found.valid) (
        rw (found.leads, found.listed)
          (process_found-skipped doc no_event run found.before found.after (looked_up found.names w)
            s key found.names found.not_deleted))

  -- The controller on the key of a Run that it leads for and that the lister has, not deleted and
  -- left as it is by the processing before and after, where the library does as it documents and
  -- go-multierror's error is no reconciler event. If the Run was started less than five seconds
  -- ago, `Reconcile` returns the error of job.go, by which the key is retried, and records one
  -- warning; if it was not, and refers to no Job, it returns nil and records nothing. Nothing else
  -- is added to the trace: no write, no patch.
  pub run_controller-skips :
      Documented lib
      → lib.event_as (requeued r) ≡ none
      → (key : String) (run : Run P C) (w : RunWorld S P C Cond) → IsFound lib key run w
      → (s : IsSkipped r run (second_reading w))
      → let (res, w') =
          run_reconcile (run_controller r lib client finalizer_name skip_status_updates) key w in
        (res ≡ skipped_result r run s) × (w'.trace ≡ skipped_trace r run s ++ w.trace)
  run_controller-skips doc no_event key run w found s =
      let (res, trace, server) = run_controller-skipped doc no_event key run w found s in
      (res, trace)
