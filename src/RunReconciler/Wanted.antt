-- ===== src/RunReconciler/Wanted.antt =====
-- The Runs that `ReconcileKind` sends a request for: those that wait for their five seconds to pass,
-- and new ones.
use test_concurrent_reconcil.Base.{
  ℕ, suc, Bool, true, false, Option, none, some, ◌≡◌, ◌≢◌, refl, sym, ◌∷◌, ◌∙◌, if◌then◌else◌, ltb,
  arith,
}
use test_concurrent_reconcil.Kube.{Error, extra}
use test_concurrent_reconcil.RunReconciler.Types.{Run, RunWorld, Reconciler}
use test_concurrent_reconcil.RunReconciler.Invoke.{
  value, Subject, InvokeParams, set_start_time, reconcile,
}
use test_concurrent_reconcil.RunReconciler.Kind.{
  too_early, refers_to_job, start, update_labels_and_annotations, add_error, finish, reconcile_kind,
}
use test_concurrent_reconcil.RunReconciler.Throttle.{
  HasParams, IsDue, IsDue-server, requested, reconcile-requests, finish-value, second_reading,
  answer_time, answer_time-late, reconcile_kind-answered,
}

pub some-injective : {a b : ℕ} → ◌≡◌ {A = Option ℕ} (some a) (some b) → a ≡ b
some-injective p = cc

module _ {S P C Cond : Type 0} (r : Reconciler S P C Cond) where
  abbrev pub initialized_run : Run P C → RunWorld S P C Cond → Run P C
  initialized_run run w = record run {
    status = r.tekton.initialize_conditions (second_reading w) run.status;
  }

  -- A new Run that refers to a Job, and is neither done nor cancelled once `InitializeConditions`
  -- has given it the start time `first`.
  pub record IsNew (run : Run P C) (first : ℕ) (w : RunWorld S P C Cond) : Type 0 where
    pub new : run.status.start_time ≡ none
    pub not_started : r.tekton.has_started none ≡ false
    pub refers : refers_to_job r run.spec.ref ≡ true
    pub initialized : (initialized_run run w).status.start_time ≡ some first
    pub not_done : r.tekton.is_done (initialized_run run w).status.conditions ≡ false
    pub not_cancelled : r.tekton.is_cancelled run.spec ≡ false

  -- The initialized Run, with the start time corrected if it lies before the creation time.
  abbrev pub new_subject : Bool → Run P C → RunWorld S P C Cond → Subject P C
  new_subject ahead run w = record {
    run =
        if ahead
        then set_start_time (some run.meta.creation_timestamp) (initialized_run run w)
        else initialized_run run w;
    aliased = ahead;
  }

  abbrev first_event : Run P C → RunWorld S P C Cond → RunWorld S P C Cond
  first_event run w = record w {
    time = second_reading w;
    readings = suc (suc w.readings);
    trace =
        extra (record {
          before = none;
          after = r.tekton.get_condition (initialized_run run w).status.conditions;
        })
        ∷ w.trace;
  }

  reconcile_kind-starts :
      (ahead : Bool) (run : Run P C) (first : ℕ) (w : RunWorld S P C Cond)
      → ltb first run.meta.creation_timestamp ≡ ahead
      → IsNew run first w
      → let (outcome, v) = reconcile r (new_subject ahead run w) (first_event run w) in
        reconcile_kind r run w
        ≡ finish r (r.tekton.get_condition (initialized_run run w).status.conditions) outcome v
  unfolding reconcile_kind too_early start
  reconcile_kind-starts true run first w order k = simp k.new (
      simp (k.refers, k.not_started)
        (simp k.initialized (simp order (simp (k.not_done, k.not_cancelled) refl))))
  reconcile_kind-starts false run first w order k = simp k.new (
      simp (k.refers, k.not_started)
        (simp k.initialized (simp order (simp (k.not_done, k.not_cancelled) refl))))

  new_subject-HasParams :
      (ahead : Bool) (run : Run P C) (params : InvokeParams) (w : RunWorld S P C Cond)
      → HasParams r run.spec.params params
      → HasParams r (new_subject ahead run w).run.spec.params params
  new_subject-HasParams true run params w given = given
  new_subject-HasParams false run params w given = given

  new_subject-start_time :
      (ahead : Bool) (run : Run P C) (first : ℕ) (w : RunWorld S P C Cond)
      → IsNew run first w
      → (old : ℕ) × ((new_subject ahead run w).run.status.start_time ≡ some old)
  new_subject-start_time true run first w k = (run.meta.creation_timestamp, refl)
  new_subject-start_time false run first w k = (first, k.initialized)

  pub reconcile_kind-new :
      (ahead : Bool) (run : Run P C) (params : InvokeParams) (first : ℕ) (w : RunWorld S P C Cond)
      → ltb first run.meta.creation_timestamp ≡ ahead
      → IsNew run first w
      → HasParams r run.spec.params params
      → (r.tekton.encode_extra_fields "" (new_subject ahead run w).run.status.conditions).1 ≡ none
      → (err : Option Error) × ((reconcile_kind r run w).0
          ≡ value (requested r (new_subject ahead run w) (answer_time r w), err))
        × ((reconcile_kind r run w).1.time ≡ answer_time r w)
  reconcile_kind-new ahead run params first w order k given encoded =
      let s = new_subject ahead run w in
      let v = first_event run w in
      let before = r.tekton.get_condition (initialized_run run w).status.conditions in
      let (old, has) = new_subject-start_time ahead run first w k in
      let (outcome, done_at) =
        reconcile-requests r s params old v has (new_subject-HasParams ahead run params w given)
          encoded in
      let s' : Subject P C = record s { run = requested r s (answer_time r w) } in
      let (ended, kept) = finish-value r before s' (reconcile r s v).1 in
      (
        add_error r none (update_labels_and_annotations r s'.run (reconcile r s v).1).0,
        rw (reconcile_kind-starts ahead run first w order k) (rw outcome ended),
        rw (reconcile_kind-starts ahead run first w order k) (rw outcome (kept ∙ done_at)),
      )

  -- What `ReconcileKind` has a request sent for, and the Run that it then works on.
  pub data IsWanted (run : Run P C) (w : RunWorld S P C Cond) : Type 0 where
    waited : (since : ℕ) → IsDue r run since w → IsWanted run w
    fresh : (first : ℕ) → IsNew run first w → IsWanted run w

  abbrev pub subject_of : {run : Run P C} {w : RunWorld S P C Cond} → IsWanted run w → Subject P C
  subject_of {run} (waited since due) = record { run = run; aliased = false }
  subject_of {run} {w} (fresh first k) = new_subject (ltb first run.meta.creation_timestamp) run w

  -- The Run as `ReconcileKind` hands it back.
  abbrev pub wanted_run : {run : Run P C} {w : RunWorld S P C Cond} → IsWanted run w → Run P C
  wanted_run {run} {w} k = requested r (subject_of k) (answer_time r w)

  pub reconcile_kind-wanted :
      (run : Run P C) (params : InvokeParams) (w : RunWorld S P C Cond) (k : IsWanted run w)
      → HasParams r run.spec.params params
      → (r.tekton.encode_extra_fields "" (subject_of k).run.status.conditions).1 ≡ none
      → (err : Option Error) × ((reconcile_kind r run w).0 ≡ value (wanted_run k, err))
        × ((reconcile_kind r run w).1.time ≡ answer_time r w)
  reconcile_kind-wanted run params w (waited since due) given encoded =
      reconcile_kind-answered r run params since w due given encoded
  reconcile_kind-wanted run params w (fresh first k) given encoded =
      reconcile_kind-new (ltb first run.meta.creation_timestamp) run params first w refl k given
        encoded

  new_subject-names :
      (ahead : Bool) (run : Run P C) (w : RunWorld S P C Cond) (t : ℕ)
      → let o = requested r (new_subject ahead run w) t in
        (run.meta.namespace ≡ o.meta.namespace) × (run.meta.name ≡ o.meta.name)
  new_subject-names true run w t = (refl, refl)
  new_subject-names false run w t = (refl, refl)

  pub wanted_run-names :
      {run : Run P C} {w : RunWorld S P C Cond} (k : IsWanted run w)
      → (run.meta.namespace ≡ (wanted_run k).meta.namespace)
        × (run.meta.name ≡ (wanted_run k).meta.name)
  wanted_run-names (waited since due) = (refl, refl)
  wanted_run-names {run} {w} (fresh first k) =
      new_subject-names (ltb first run.meta.creation_timestamp) run w (answer_time r w)

  -- The start time of the Run that comes back is not the one that it came with.
  pub wanted_run-start_time :
      {run : Run P C} {w : RunWorld S P C Cond} (k : IsWanted run w)
      → run.status.start_time ≢ (wanted_run k).status.start_time
  wanted_run-start_time {run} {w} (waited since due) same =
      absurd
        (omega (arith, some-injective (sym due.started ∙ same), answer_time-late r run since w due))
  wanted_run-start_time {run} {w} (fresh first k) same = cc (k.new)

  pub IsWanted-server :
      {run : Run P C} {w : RunWorld S P C Cond} (s : S)
      → IsWanted run w
      → IsWanted run (record w { server = s })
  IsWanted-server s (waited since due) = waited since (IsDue-server r s due)
  IsWanted-server s (fresh first k) = fresh first (record {
    new = k.new;
    not_started = k.not_started;
    refers = k.refers;
    initialized = k.initialized;
    not_done = k.not_done;
    not_cancelled = k.not_cancelled;
  })

  pub subject_of-server :
      {run : Run P C} {w : RunWorld S P C Cond} (s : S) (k : IsWanted run w)
      → subject_of (IsWanted-server s k) ≡ subject_of k
  unfolding IsWanted-server
  subject_of-server s (waited since due) = refl
  subject_of-server s (fresh first k) = refl
