-- ===== src/RunReconciler/Clock.antt =====
-- `ReconcileKind` never sets the clock back.
use test_concurrent_reconcil.Base.{ℕ, ◌+◌, String, Option, none, some, ◌≤◌, arith}
use test_concurrent_reconcil.Kube.{Error, now}
use test_concurrent_reconcil.RunReconciler.Types.{Run, RunWorld, Reconciler}
use test_concurrent_reconcil.RunReconciler.Invoke.{
  Outcome, panics, value, Subject, InvokeParams, invoke, reconcile_with, reconcile, project_id,
  space_id, job_id, invoke_token,
}
use test_concurrent_reconcil.RunReconciler.Kind.{
  too_early, started, start, finish, work, reconcile_kind,
}
use test_concurrent_reconcil.RunReconciler.Throttle.{update_labels_and_annotations-time}

module _ {S P C Cond : Type 0} (r : Reconciler S P C Cond) where
  too_early-clock : (o : Option ℕ) (w : RunWorld S P C Cond) → w.time ≤ (too_early o w).1.time
  unfolding too_early
  too_early-clock none w = omega arith
  too_early-clock (some since) w = ground arith

  started-clock :
      (run : Run P C) (o : Option ℕ) (w : RunWorld S P C Cond) → w.time ≤ (started r run o w).1.time
  started-clock run none w = omega arith
  started-clock run (some first) w = omega arith

  start-clock : (run : Run P C) (w : RunWorld S P C Cond) → w.time ≤ (start r run w).1.time
  unfolding start
  start-clock run w =
      let t : ℕ = w.time + w.drift w.readings in
      let status = r.tekton.initialize_conditions t run.status in
      ground (arith, started-clock (record run { status = status }) status.start_time (now w).1)

  invoke-clock :
      (params : InvokeParams) (s : Subject P C) (w : RunWorld S P C Cond)
      → w.time ≤ (invoke r params s w).1.time
  unfolding invoke
  invoke-clock params s w = ground arith

  reconcile_with-clock :
      (s : Subject P C) (project space job token : Option String) (w : RunWorld S P C Cond)
      → w.time ≤ (reconcile_with r s project space job token w).1.time
  unfolding reconcile_with
  reconcile_with-clock s none space job token w = omega arith
  reconcile_with-clock s (some p) none job token w = omega arith
  reconcile_with-clock s (some p) (some n) none token w = omega arith
  reconcile_with-clock s (some p) (some n) (some j) none w = omega arith
  reconcile_with-clock s (some p) (some n) (some j) (some t) w =
      invoke-clock (record { project = p; space = n; job = j; token = t }) s w

  reconcile-clock : (s : Subject P C) (w : RunWorld S P C Cond) → w.time ≤ (reconcile r s w).1.time
  unfolding reconcile
  reconcile-clock s w =
      let get = r.tekton.get_param s.run.spec.params in
      reconcile_with-clock s (get project_id) (get space_id) (get job_id) (get invoke_token) w

  finish-clock :
      (before : Option Cond) (o : Outcome (Subject P C × Option Error)) (w : RunWorld S P C Cond)
      → w.time ≤ (finish r before o w).1.time
  finish-clock before panics w = omega arith
  finish-clock before (value (s, err)) w =
      omega (arith, update_labels_and_annotations-time r s.run w)

  work-clock : (o : Outcome (Subject P C)) (w : RunWorld S P C Cond) → w.time ≤ (work r o w).1.time
  work-clock panics w = omega arith
  work-clock (value s) w =
      let (outcome, v) = reconcile r s w in
      ground (
        arith,
        reconcile-clock s w,
        finish-clock (r.tekton.get_condition s.run.status.conditions) outcome v,
      )

  pub reconcile_kind-clock :
      (run : Run P C) (w : RunWorld S P C Cond) → w.time ≤ (reconcile_kind r run w).1.time
  unfolding reconcile_kind
  reconcile_kind-clock run w =
      let v = (too_early {S = S} {P = P} {C = C} {Cond = Cond} run.status.start_time w).1 in
      let (subject, v') = start r run v in
      ground
        (arith, too_early-clock run.status.start_time w, start-clock run v, work-clock subject v')
