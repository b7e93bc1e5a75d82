-- ===== src/RunReconciler/Kind.antt =====
-- `ReconcileKind` and `updateLabelsAndAnnotations` of job.go.
use test_concurrent_reconcil.Base.{
  ◌+◌, ◌*◌, ℕ, String, Bool, true, false, not, ◌||◌, ◌&&◌, Option, none, some, if◌then◌else◌, ltb,
  ◌==◌, string_eq,
}
use test_concurrent_reconcil.Kube.{
  Error, message, wrap, Returns, M, pure, act, read, request, now, patch, extra, Json, obj, field,
  end, string_map, ◌>>=◌, ◌>>◌,
}
use test_concurrent_reconcil.RunReconciler.Types.{TaskRef, Run, RunWorld, second, Reconciler}
use test_concurrent_reconcil.RunReconciler.Labels.{deep_equal}
use test_concurrent_reconcil.RunReconciler.Invoke.{
  scheme_group_version, Outcome, panics, value, Subject, set_start_time, reconcile,
}

abbrev pub fake_error : Error
fake_error = message "fake error to requeue the work queue"

module _ {P C : Type 0} where
  abbrev pub labels_patch : Run P C → Json
  labels_patch run = obj (
      field "metadata"
        (obj (
          field "labels" (string_map run.meta.labels)
            (field "annotations" (string_map run.meta.annotations) end)))
        end)

  abbrev pub labels_changed : Run P C → Run P C → Bool
  labels_changed run new_run =
      not (deep_equal run.meta.labels new_run.meta.labels)
      || not (deep_equal run.meta.annotations new_run.meta.annotations)

module _ {S P C Cond : Type 0} where
  abbrev pub send_labels :
      Reconciler S P C Cond → Run P C → Returns String → M (RunWorld S P C Cond) (Option Error)
  send_labels r run (bytes, some err) = pure (some err)
  send_labels r run (bytes, none) = do
    (updated, err) ←
        request (patch run.meta.namespace run.meta.name bytes)
          (r.patch_run run.meta.namespace run.meta.name bytes)
    pure err

  abbrev pub compare_labels :
      Reconciler S P C Cond → Run P C → Returns (Run P C) → M (RunWorld S P C Cond) (Option Error)
  compare_labels r run (new_run, some err) =
      pure (some (wrap "error getting Run %s when updating labels/annotations: %w" err))
  compare_labels r run (new_run, none) =
      if labels_changed run new_run
      then send_labels r run (r.marshal (labels_patch run))
      else pure none

  unfoldable pub update_labels_and_annotations :
      Reconciler S P C Cond → Run P C → M (RunWorld S P C Cond) (Option Error)
  update_labels_and_annotations r run = do
    found ← read (r.run_lister_get run.meta.namespace run.meta.name)
    compare_labels r run found

  -- The "fake check", with the readings of the clock in the log line and the two prints.
  unfoldable pub too_early : Option ℕ → M (RunWorld S P C Cond) Bool
  too_early none = do first ← now; pure false
  too_early (some start) = do
    first ← now
    t ← now
    if ltb t (start + 5 * second) then (do printed ← now; pure true) else pure false

  unfoldable pub refers_to_job : Reconciler S P C Cond → Option TaskRef → Bool
  refers_to_job r none = false
  refers_to_job r (some ref) =
      ref.api_version == r.tekton.group_version_string scheme_group_version && ref.kind == "Job"

  -- From the status that `InitializeConditions` leaves: the correction of the start time, and the
  -- first event.
  abbrev pub started :
      Reconciler S P C Cond → Run P C → Option ℕ → M (RunWorld S P C Cond) (Outcome (Subject P C))
  started r run none = pure panics
  started r run (some start) =
      let early = ltb start run.meta.creation_timestamp in
      let subject : Subject P C = record {
        run = if early then set_start_time (some run.meta.creation_timestamp) run else run;
        aliased = early;
      } in
      do
        act (extra (record { before = none; after = r.tekton.get_condition run.status.conditions }))
        pure (value subject)

  -- "If the Run has not started, initialize the Condition and set the start time."
  unfoldable pub start :
      Reconciler S P C Cond → Run P C → M (RunWorld S P C Cond) (Outcome (Subject P C))
  start r run =
      if r.tekton.has_started run.status.start_time
      then pure (value (record { run = run; aliased = false }))
      else do
        t ← now
        let initialized = record run { status = r.tekton.initialize_conditions t run.status }
        started r initialized initialized.status.start_time

  abbrev pub add_error : Reconciler S P C Cond → Option Error → Option Error → Option Error
  add_error r merr none = merr
  add_error r merr (some err) = some (r.tekton.append merr err)

  -- After `reconcile`: the labels, and the second event.
  abbrev pub finish :
      Reconciler S P C Cond
      → Option Cond
      → Outcome (Subject P C × Option Error)
      → M (RunWorld S P C Cond) (Outcome (Run P C × Option Error))
  finish r before panics = pure panics
  finish r before (value (s, err)) = do
    failed ← update_labels_and_annotations r s.run
    act (extra (record { before = before; after = r.tekton.get_condition s.run.status.conditions }))
    pure (value (s.run, add_error r (add_error r none err) failed))

  abbrev pub work :
      Reconciler S P C Cond
      → Outcome (Subject P C)
      → M (RunWorld S P C Cond) (Outcome (Run P C × Option Error))
  work r panics = pure panics
  work r (value s) =
      if r.tekton.is_done s.run.status.conditions || r.tekton.is_cancelled s.run.spec
      then pure (value (s.run, none))
      else do
        outcome ← reconcile r s
        finish r (r.tekton.get_condition s.run.status.conditions) outcome

  unfoldable pub reconcile_kind :
      Reconciler S P C Cond → Run P C → M (RunWorld S P C Cond) (Outcome (Run P C × Option Error))
  reconcile_kind r run = do
    early ← too_early run.status.start_time
    if early
        then pure (value (run, some (r.tekton.append none fake_error)))
        else if refers_to_job r run.spec.ref
        then (do subject ← start r run; work r subject)
        else pure (value (run, none))
