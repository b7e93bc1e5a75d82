-- ===== src/RunReconciler/Safety.antt =====
-- `ReconcileKind` never dereferences a nil start time, and what it leaves of a Run's conditions.
use test_concurrent_reconcil.Base.{
  ℕ, String, true, false, Option, none, some, ◌≡◌, refl, ltb, ◌+◌, ◌||◌, Bool-cases, Option-cases,
  inl, inr,
}
use test_concurrent_reconcil.Kube.{Error, now}
use test_concurrent_reconcil.RunReconciler.Types.{Run, RunWorld, Reconciler, Documented}
use test_concurrent_reconcil.RunReconciler.Invoke.{
  Outcome, panics, value, Subject, InvokeParams, invoke, no_error, project_id, space_id, job_id,
  invoke_token, reconcile_with, reconcile,
}
use test_concurrent_reconcil.RunReconciler.Kind.{
  too_early, refers_to_job, started, start, finish, work, reconcile_kind,
}

-- `Leaves P outcome`: it is no panic, and its value has `P`.
abbrev pub Leaves : {A : Type 0} → (A → Type 0) → Outcome A → Type 0
Leaves P panics = ⊥
Leaves P (value a) = P a

value_of : {A : Type 0} (o : Outcome A) → Leaves (λ a. Unit {0}) o → (a : A) × (o ≡ value a)
value_of panics h = absurd h
value_of (value a) h = (a, refl)

module _ {P C : Type 0} where
  abbrev pub HasStartTime : Subject P C → Type 0
  HasStartTime s = (t : ℕ) × (s.run.status.start_time ≡ some t)

module _ {S P C Cond : Type 0} (r : Reconciler S P C Cond) (doc : Documented r.tekton) where
  started-HasStartTime :
      (run : Run P C) (t : ℕ) (w : RunWorld S P C Cond)
      → run.status.start_time ≡ some t
      → Leaves HasStartTime (started r run (some t) w).0
  started-HasStartTime run t w h = elim (Bool-cases (ltb t run.meta.creation_timestamp)) [
    | inl early ↦ simp early (run.meta.creation_timestamp, refl)
    | inr late ↦ simp late (t, h)
  ]

  known_started-HasStartTime :
      (run : Run P C)
      → (o : Option ℕ) → run.status.start_time ≡ o
      → r.tekton.has_started o ≡ true
      → HasStartTime (record { run = run; aliased = false })
  known_started-HasStartTime run none e h = cc (doc.has_started-nil)
  known_started-HasStartTime run (some t) e h = (t, e)

  start-HasStartTime :
      (run : Run P C) (w : RunWorld S P C Cond) → Leaves HasStartTime (start r run w).0
  unfolding start
  start-HasStartTime run w = elim (Bool-cases (r.tekton.has_started run.status.start_time)) [
    | inl known ↦ simp known (known_started-HasStartTime run run.status.start_time refl known)
    | inr new ↦
        let t : ℕ = w.time + w.drift w.readings in
        let (first, set) = doc.initialize_conditions-start_time t run.status in
        let initialized = record run { status = r.tekton.initialize_conditions t run.status } in
        simp new (simp set (started-HasStartTime initialized first (now w).1 set))
  ]

  invoke-Leaves :
      (params : InvokeParams) (s : Subject P C) (w : RunWorld S P C Cond)
      → HasStartTime s
      → Leaves (λ a. Unit {0}) (invoke r params s w).0
  unfolding invoke
  invoke-Leaves params s w (t, h) =
      elim (Option-cases (r.tekton.encode_extra_fields "" s.run.status.conditions).1) [
        | inl encoded ↦ simp encoded (simp h tt)
        | inr (e, failed) ↦ simp failed tt
      ]

  no_error-Leaves :
      (outcome : Outcome (Subject P C))
      → Leaves (λ a. Unit {0}) outcome
      → Leaves (λ a. Unit {0}) (no_error outcome)
  no_error-Leaves panics h = h
  no_error-Leaves (value s) h = tt

  reconcile_with-Leaves :
      (s : Subject P C) (project space job token : Option String) (w : RunWorld S P C Cond)
      → HasStartTime s
      → Leaves (λ a. Unit {0}) (reconcile_with r s project space job token w).0
  unfolding reconcile_with
  reconcile_with-Leaves s none space job token w h = tt
  reconcile_with-Leaves s (some a) none job token w h = tt
  reconcile_with-Leaves s (some a) (some b) none token w h = tt
  reconcile_with-Leaves s (some a) (some b) (some c) none w h = tt
  reconcile_with-Leaves s (some a) (some b) (some c) (some d) w h =
      let params : InvokeParams = record { project = a; space = b; job = c; token = d } in
      no_error-Leaves (invoke r params s w).0 (invoke-Leaves params s w h)

  finish-Leaves :
      (before : Option Cond) (outcome : Outcome (Subject P C × Option Error))
      (w : RunWorld S P C Cond)
      → Leaves (λ a. Unit {0}) outcome
      → Leaves (λ a. Unit {0}) (finish r before outcome w).0
  finish-Leaves before panics w h = h
  finish-Leaves before (value (s, err)) w h = tt

  work-Leaves :
      (outcome : Outcome (Subject P C)) (w : RunWorld S P C Cond)
      → Leaves HasStartTime outcome
      → Leaves (λ a. Unit {0}) (work r outcome w).0
  unfolding reconcile
  work-Leaves panics w h = h
  work-Leaves (value s) w h =
      let get = r.tekton.get_param s.run.spec.params in
      elim (Bool-cases
        (r.tekton.is_done s.run.status.conditions || r.tekton.is_cancelled s.run.spec)) [
          | inl over ↦ simp over tt
          | inr open_run ↦
              let (outcome, v) = reconcile r s w in
              simp open_run (
                finish-Leaves (r.tekton.get_condition s.run.status.conditions) outcome v (
                  reconcile_with-Leaves s (get project_id) (get space_id) (get job_id)
                    (get invoke_token) w h))
        ]

  reconcile_kind-Leaves :
      (run : Run P C) (w : RunWorld S P C Cond) → Leaves (λ a. Unit {0}) (reconcile_kind r run w).0
  unfolding reconcile_kind
  reconcile_kind-Leaves run w =
      let (early, v) = too_early {S = S} {P = P} {C = C} {Cond = Cond} run.status.start_time w in
      elim (Bool-cases early) [
        | inl soon ↦ simp soon tt
        | inr later ↦ elim (Bool-cases (refers_to_job r run.spec.ref)) [
          | inl job ↦
              let (outcome, u) = start r run v in
              simp (later, job) (work-Leaves outcome u (start-HasStartTime run v))
          | inr other ↦ simp (later, other) tt
        ]
      ]

  -- If a Run without a start time has not started and `InitializeConditions` sets one,
  -- `ReconcileKind` never dereferences a nil start time: for every Run and at every time it returns
  -- a Run and an error or nil.
  pub reconcile_kind_returns :
      (run : Run P C) (w : RunWorld S P C Cond)
      → (run' : Run P C) × (err : Option Error) × ((reconcile_kind r run w).0 ≡ value (run', err))
  reconcile_kind_returns run w =
      let (a, e) = value_of (reconcile_kind r run w).0 (reconcile_kind-Leaves run w) in
      (a.0, a.1, e)
