-- ===== src/RunReconciler/Keeps.antt =====
-- What `ReconcileKind` can change of a Run.
use mathlib.Core.Path.{subst}
use test_concurrent_reconcil.Base.{
  ℕ, String, Option, none, some, List, ◌≡◌, ltb, ◌||◌, Bool-cases, Option-cases, inl, inr,
}
use test_concurrent_reconcil.Kube.{Error, now}
use test_concurrent_reconcil.RunReconciler.Types.{Run, RunWorld, Tekton, Reconciler}
use test_concurrent_reconcil.RunReconciler.Invoke.{
  Outcome, panics, value, Subject, set_conditions, set_start_time, write_through, InvokeParams,
  invoke, no_error, project_id, space_id, job_id, invoke_token, reconcile_with, reconcile,
}
use test_concurrent_reconcil.RunReconciler.Kind.{
  too_early, refers_to_job, started, start, finish, work, reconcile_kind,
}

-- `IfValue P outcome`: its value, if it has one, has `P`.
abbrev pub IfValue : {A : Type 0} → (A → Type 0) → Outcome A → Type 0
IfValue P panics = Unit
IfValue P (value a) = P a

module _ {P C Cond : Type 0} (t : Tekton P C Cond) where
  -- The changes that `ReconcileKind` makes to a Run.
  pub record IsClosed (Q : Run P C → Type 0) : Type 0 where
    pub initialize :
        (now : ℕ) (run : Run P C)
        → Q run
        → Q (record run { status = t.initialize_conditions now run.status })
    pub start_at : (at : Option ℕ) (run : Run P C) → Q run → Q (set_start_time at run)
    pub fail :
        (reason format : String) (args : List String) (run : Run P C)
        → Q run
        → Q (set_conditions (t.mark_run_failed reason format args run.status.conditions) run)
    pub encode :
        (id : String) (run : Run P C)
        → Q run
        → Q (set_conditions (t.encode_extra_fields id run.status.conditions).0 run)
    pub overwrite_creation :
        (at : ℕ) (run : Run P C)
        → Q run
        → Q (record run { meta = record run.meta { creation_timestamp = at } })

module _ {S P C Cond : Type 0} (r : Reconciler S P C Cond) (Q : Run P C → Type 0)
    (closed : IsClosed r.tekton Q) where
  started-keeps :
      (run : Run P C) (o : Option ℕ) (w : RunWorld S P C Cond)
      → Q run
      → IfValue (λ s. Q s.run) (started r run o w).0
  started-keeps run none w q = tt
  started-keeps run (some at) w q = elim (Bool-cases (ltb at run.meta.creation_timestamp)) [
    | inl early ↦ simp early (closed.start_at (some run.meta.creation_timestamp) run q)
    | inr late ↦ simp late q
  ]

  start-keeps :
      (run : Run P C) (w : RunWorld S P C Cond) → Q run → IfValue (λ s. Q s.run) (start r run w).0
  unfolding start
  start-keeps run w q = elim (Bool-cases (r.tekton.has_started run.status.start_time)) [
    | inl known ↦ simp known q
    | inr new ↦
        let (at, v) = now w in
        let initialized : Run P C = record run {
          status = r.tekton.initialize_conditions at run.status;
        } in
        simp new
          (started-keeps initialized initialized.status.start_time v (closed.initialize at run q))
  ]

  write_through-keeps :
      (at : ℕ) (s : Subject P C) (o : Option ℕ)
      → Q s.run
      → IfValue (λ s. Q s.run) (write_through at s o)
  write_through-keeps at s none q = tt
  write_through-keeps at s (some old) q = elim (Bool-cases s.aliased) [
    | inl shared ↦ simp shared (
        closed.overwrite_creation at (set_start_time (some at) s.run)
          (closed.start_at (some at) s.run q))
    | inr apart ↦ simp apart (closed.start_at (some at) s.run q)
  ]

  invoke-keeps :
      (params : InvokeParams) (s : Subject P C) (w : RunWorld S P C Cond)
      → Q s.run
      → IfValue (λ s. Q s.run) (invoke r params s w).0
  unfolding invoke
  invoke-keeps params s w q =
      let (conditions, err) = r.tekton.encode_extra_fields "" s.run.status.conditions in
      let encoded : Subject P C = record s { run = set_conditions conditions s.run } in
      elim (Option-cases err) [
        | inl fine ↦
            simp fine
              (write_through-keeps _ encoded s.run.status.start_time (closed.encode "" s.run q))
        | inr (e, failed) ↦ simp failed (closed.fail _ _ _ encoded.run (closed.encode "" s.run q))
      ]

  abbrev RunKept : Outcome (Subject P C × Option Error) → Type 0
  RunKept = IfValue (λ a. Q a.0.run)

  no_error-keeps :
      (outcome : Outcome (Subject P C))
      → IfValue (λ s. Q s.run) outcome
      → RunKept (no_error outcome)
  no_error-keeps panics q = q
  no_error-keeps (value s) q = q

  reconcile_with-keeps :
      (s : Subject P C) (project space job token : Option String) (w : RunWorld S P C Cond)
      → Q s.run
      → RunKept (reconcile_with r s project space job token w).0
  unfolding reconcile_with
  reconcile_with-keeps s none space job token w q = closed.fail _ _ _ s.run q
  reconcile_with-keeps s (some a) none job token w q = closed.fail _ _ _ s.run q
  reconcile_with-keeps s (some a) (some b) none token w q = closed.fail _ _ _ s.run q
  reconcile_with-keeps s (some a) (some b) (some c) none w q = q
  reconcile_with-keeps s (some a) (some b) (some c) (some d) w q =
      let params : InvokeParams = record { project = a; space = b; job = c; token = d } in
      no_error-keeps (invoke r params s w).0 (invoke-keeps params s w q)

  finish-keeps :
      (before : Option Cond) (outcome : Outcome (Subject P C × Option Error))
      (w : RunWorld S P C Cond)
      → RunKept outcome
      → IfValue (λ a. Q a.0) (finish r before outcome w).0
  finish-keeps before panics w q = q
  finish-keeps before (value (s, err)) w q = q

  work-keeps :
      (outcome : Outcome (Subject P C)) (w : RunWorld S P C Cond)
      → IfValue (λ s. Q s.run) outcome
      → IfValue (λ a. Q a.0) (work r outcome w).0
  unfolding reconcile
  work-keeps panics w q = q
  work-keeps (value s) w q =
      let get = r.tekton.get_param s.run.spec.params in
      elim (Bool-cases
        (r.tekton.is_done s.run.status.conditions || r.tekton.is_cancelled s.run.spec)) [
          | inl over ↦ simp over q
          | inr open_run ↦
              let (outcome, v) = reconcile r s w in
              simp open_run (
                finish-keeps (r.tekton.get_condition s.run.status.conditions) outcome v (
                  reconcile_with-keeps s (get project_id) (get space_id) (get job_id)
                    (get invoke_token) w q))
        ]

  reconcile_kind-IfValue :
      (run : Run P C) (w : RunWorld S P C Cond)
      → Q run
      → IfValue (λ a. Q a.0) (reconcile_kind r run w).0
  unfolding reconcile_kind
  reconcile_kind-IfValue run w q =
      let (early, v) = too_early {S = S} {P = P} {C = C} {Cond = Cond} run.status.start_time w in
      elim (Bool-cases early) [
        | inl soon ↦ simp soon q
        | inr later ↦ elim (Bool-cases (refers_to_job r run.spec.ref)) [
          | inl job ↦
              let (outcome, u) = start r run v in
              simp (later, job) (work-keeps outcome u (start-keeps run v q))
          | inr other ↦ simp (later, other) q
        ]
      ]

  -- A property of Runs is kept by `ReconcileKind` if each of these keeps it: `InitializeConditions`,
  -- setting the start time, marking the Run as failed, encoding the request's answer, overwriting
  -- the creation time.
  pub reconcile_kind-keeps :
      (run run' : Run P C) (err : Option Error) (w : RunWorld S P C Cond)
      → Q run
      → (reconcile_kind r run w).0 ≡ value (run', err)
      → Q run'
  reconcile_kind-keeps run run' err w q e =
      subst (IfValue (λ a. Q a.0)) e (reconcile_kind-IfValue run w q)
