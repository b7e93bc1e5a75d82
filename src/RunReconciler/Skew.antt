-- ===== src/RunReconciler/Skew.antt =====
-- The correction of a start time before the creation time makes `run.Status.StartTime` point to
-- `run.CreationTimestamp`, and the write at the end of `reconcile` goes through that pointer.
use test_concurrent_reconcil.Base.{ℕ, ◌<◌, true, Option, none, some, ◌≡◌, lt→ltb, ap, sym}
use test_concurrent_reconcil.Kube.{Error}
use test_concurrent_reconcil.RunReconciler.Types.{Run, RunWorld, Reconciler}
use test_concurrent_reconcil.RunReconciler.Invoke.{value, InvokeParams}
use test_concurrent_reconcil.RunReconciler.Kind.{reconcile_kind}
use test_concurrent_reconcil.RunReconciler.Throttle.{HasParams, requested, answer_time}
use test_concurrent_reconcil.RunReconciler.Wanted.{
  IsNew, initialized_run, new_subject, reconcile_kind-new,
}

module _ {S P C Cond : Type 0} (r : Reconciler S P C Cond) where
  -- For a new Run whose creation time lies ahead of the node's clock, which is requested and whose
  -- answer is encoded, the Run that comes back has lost its creation time: both that and the start
  -- time are the clock after the request.
  pub reconcile_kind-creation_lost :
      (run : Run P C) (params : InvokeParams) (first : ℕ) (w : RunWorld S P C Cond)
      → IsNew r run first w
      → first < run.meta.creation_timestamp
      → HasParams r run.spec.params params
      → (r.tekton.encode_extra_fields "" (initialized_run r run w).status.conditions).1 ≡ none
      → (run' : Run P C) × (err : Option Error) × ((reconcile_kind r run w).0 ≡ value (run', err))
        × (run'.status.start_time ≡ some (reconcile_kind r run w).1.time)
        × (run'.meta.creation_timestamp ≡ (reconcile_kind r run w).1.time)
  reconcile_kind-creation_lost run params first w k ahead given encoded =
      let (err, outcome, time) =
        reconcile_kind-new r true run params first w (lt→ltb _ _ ahead) k given encoded in
      (
        requested r (new_subject r true run w) (answer_time r w),
        err,
        outcome,
        ap some (sym time),
        sym time,
      )
