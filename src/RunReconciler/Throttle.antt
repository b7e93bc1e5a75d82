-- ===== src/RunReconciler/Throttle.antt =====
-- The five seconds between two requests for one Run.
use test_concurrent_reconcil.Base.{
  ℕ, suc, ◌+◌, ◌*◌, ◌<◌, ◌≤◌, true, false, Option, none, some, ◌≡◌, refl, if◌then◌else◌, lt→ltb,
  le→ltb, arith, ◌∙◌,
}
use test_concurrent_reconcil.Kube.{Error}
use test_concurrent_reconcil.RunReconciler.Types.{Run, RunWorld, second, Reconciler}
use test_concurrent_reconcil.RunReconciler.Invoke.{
  Outcome, value, Subject, InvokeParams, invoke, reconcile, project_id, space_id, job_id,
  invoke_token,
}
use test_concurrent_reconcil.RunReconciler.Kind.{
  fake_error, too_early, refers_to_job, start, update_labels_and_annotations, add_error, finish,
  reconcile_kind,
}

module _ {S P C Cond : Type 0} where
  -- What the second reading of the clock from `w` on shows.
  abbrev pub second_reading : RunWorld S P C Cond → ℕ
  second_reading w = w.time + w.drift w.readings + w.drift (suc w.readings)

  -- A Run whose start time lies less than five seconds back, or ahead, is handed back unchanged
  -- with the error that puts it back into the work queue; nothing is sent or recorded.
  pub reconcile_kind-too_early :
      (r : Reconciler S P C Cond) (run : Run P C) (since : ℕ) (w : RunWorld S P C Cond)
      → run.status.start_time ≡ some since
      → second_reading w < since + 5 * second
      → ((reconcile_kind r run w).0 ≡ value (run, some (r.tekton.append none fake_error)))
        × ((reconcile_kind r run w).1.trace ≡ w.trace)
  unfolding reconcile_kind too_early
  reconcile_kind-too_early r run since w started early =
      simp started (simp (lt→ltb _ _ early) (refl, refl))

  module _ (r : Reconciler S P C Cond) where
    -- All four parameters are given.
    abbrev pub HasParams : P → InvokeParams → Type 0
    HasParams p params =
        (r.tekton.get_param p project_id ≡ some params.project)
        × (r.tekton.get_param p space_id ≡ some params.space)
        × (r.tekton.get_param p job_id ≡ some params.job)
        × (r.tekton.get_param p invoke_token ≡ some params.token)

    -- The Run was requested again: it was written at the time at which the clock stands now.
    abbrev pub IsRequested : ℕ → Outcome (Run P C × Option Error) × RunWorld S P C Cond → Type 0
    IsRequested since (outcome, w) =
        (run : Run P C) × (err : Option Error) × (outcome ≡ value (run, err))
        × (run.status.start_time ≡ some w.time)
        × (since + 2 * second ≤ w.time)

    -- The Run with the request's id encoded, and its start time written at `t`.
    abbrev pub requested : Subject P C → ℕ → Run P C
    requested s t = record s.run {
      meta = if s.aliased then record s.run.meta { creation_timestamp = t } else s.run.meta;
      status = record {
        start_time = some t;
        conditions = (r.tekton.encode_extra_fields "" s.run.status.conditions).0;
      };
    }

    -- When the request for a Run goes out at `w`, it returns two seconds later at the earliest.
    abbrev pub answered : RunWorld S P C Cond → ℕ
    answered w = w.time + 2 * second + w.drift w.readings

    pub reconcile-requests :
        (s : Subject P C) (params : InvokeParams) (old : ℕ) (w : RunWorld S P C Cond)
        → s.run.status.start_time ≡ some old
        → HasParams s.run.spec.params params
        → (r.tekton.encode_extra_fields "" s.run.status.conditions).1 ≡ none
        → ((reconcile r s w).0 ≡ value (record s { run = requested s (answered w) }, none))
          × ((reconcile r s w).1.time ≡ answered w)
    unfolding reconcile invoke
    reconcile-requests s params old w had given encoded = (ground arith, ground arith)

    pub update_labels_and_annotations-time :
        (run : Run P C) (w : RunWorld S P C Cond)
        → (update_labels_and_annotations r run w).1.time ≡ w.time
    unfolding update_labels_and_annotations
    update_labels_and_annotations-time run w = ground arith

    pub finish-value :
        (before : Option Cond) (s : Subject P C) (w : RunWorld S P C Cond)
        → ((finish r before (value (s, none)) w).0
            ≡ value (s.run, add_error r none (update_labels_and_annotations r s.run w).0))
          × ((finish r before (value (s, none)) w).1.time ≡ w.time)
    finish-value before s w = (refl, update_labels_and_annotations-time s.run w)

    -- A Run that waits for its five seconds to pass, refers to a Job, and is neither done nor
    -- cancelled.
    pub record IsDue (run : Run P C) (start_time : ℕ) (w : RunWorld S P C Cond) : Type 0 where
      pub started : run.status.start_time ≡ some start_time
      pub known_started : r.tekton.has_started (some start_time) ≡ true
      pub waited : start_time + 5 * second ≤ second_reading w
      pub refers : refers_to_job r run.spec.ref ≡ true
      pub not_done : r.tekton.is_done run.status.conditions ≡ false
      pub not_cancelled : r.tekton.is_cancelled run.spec ≡ false

    -- That a Run is due depends on the clock of the world alone.
    pub IsDue-server :
        {run : Run P C} {since : ℕ} {w : RunWorld S P C Cond} (s : S)
        → IsDue run since w
        → IsDue run since (record w { server = s })
    IsDue-server s due = record {
      started = due.started;
      known_started = due.known_started;
      waited = due.waited;
      refers = due.refers;
      not_done = due.not_done;
      not_cancelled = due.not_cancelled;
    }

    -- The world after the check of the five seconds.
    abbrev checked : RunWorld S P C Cond → RunWorld S P C Cond
    checked w = record w { time = second_reading w; readings = suc (suc w.readings) }

    reconcile_kind-due :
        (run : Run P C) (start_time : ℕ) (w : RunWorld S P C Cond)
        → IsDue run start_time w
        → let s : Subject P C = record { run = run; aliased = false } in
          let (outcome, w') = reconcile r s (checked w) in
          reconcile_kind r run w
          ≡ finish r (r.tekton.get_condition run.status.conditions) outcome w'
    unfolding reconcile_kind too_early start
    reconcile_kind-due run start_time w due = simp due.started (
        simp (le→ltb _ _ due.waited)
          (simp due.refers (simp due.known_started (simp (due.not_done, due.not_cancelled) refl))))

    -- When a Run that is due at `w` has its request answered.
    abbrev pub answer_time : RunWorld S P C Cond → ℕ
    answer_time w = answered (checked w)

    pub reconcile_kind-answered :
        (run : Run P C) (params : InvokeParams) (since : ℕ) (w : RunWorld S P C Cond)
        → IsDue run since w
        → HasParams run.spec.params params
        → (r.tekton.encode_extra_fields "" run.status.conditions).1 ≡ none
        → (err : Option Error) × ((reconcile_kind r run w).0
            ≡ value (requested (record { run = run; aliased = false }) (answer_time w), err))
          × ((reconcile_kind r run w).1.time ≡ answer_time w)
    reconcile_kind-answered run params since w due given encoded =
        let s : Subject P C = record { run = run; aliased = false } in
        let (outcome, done_at) =
          reconcile-requests s params since (checked w) due.started given encoded in
        let (ended, kept) =
          finish-value (r.tekton.get_condition run.status.conditions)
            (record s { run = requested s (answer_time w) }) (reconcile r s (checked w)).1 in
        (
          add_error r none
              (update_labels_and_annotations r (requested s (answer_time w))
                (reconcile r s (checked w)).1).0,
          rw (reconcile_kind-due run since w due) (rw outcome ended),
          rw (reconcile_kind-due run since w due) (rw outcome (kept ∙ done_at)),
        )

    pub answer_time-late :
        (run : Run P C) (since : ℕ) (w : RunWorld S P C Cond)
        → IsDue run since w
        → since + 7 * second ≤ answer_time w
    answer_time-late run since w due = omega (arith, due.waited)

    -- A Run that is due, has all four parameters and whose answer can be encoded is requested,
    -- whatever becomes of its labels, and comes back with the time of the answer as its start time.
    -- That is seven seconds or more after the start time that it came with: five of waiting and two
    -- of the request.
    pub reconcile_kind-interval :
        (run : Run P C) (params : InvokeParams) (since : ℕ) (w : RunWorld S P C Cond)
        → IsDue run since w
        → HasParams run.spec.params params
        → (r.tekton.encode_extra_fields "" run.status.conditions).1 ≡ none
        → (err : Option Error) × (t : ℕ) × ((reconcile_kind r run w).0
            ≡ value (requested (record { run = run; aliased = false }) t, err))
          × ((reconcile_kind r run w).1.time ≡ t)
          × (since + 7 * second ≤ t)
    reconcile_kind-interval run params since w due given encoded =
        let (err, outcome, time) = reconcile_kind-answered run params since w due given encoded in
        (err, answer_time w, outcome, time, answer_time-late run since w due)
