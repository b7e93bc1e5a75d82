-- ===== src/RunReconciler/Failures.antt =====
-- What `reconcile` does about missing parameters, and what becomes of errors.
use mathlib.Core.Path.{subst}
use mathlib.Core.Option.{some-injective}
use test_concurrent_reconcil.Base.{
  ℕ, ◌+◌, ◌*◌, ◌≤◌, String, Option, none, some, [], ◌∷◌, List, ◌≡◌, refl, if◌then◌else◌, arith,
  ◌==◌, string_eq,
}
use test_concurrent_reconcil.Kube.{Error, message}
use test_concurrent_reconcil.RunReconciler.Types.{
  Run, RunWorld, second, reason_couldnt_get_param, Reconciler,
}
use test_concurrent_reconcil.RunReconciler.Invoke.{
  project_id, space_id, job_id, invoke_token, Outcome, panics, value, Subject, InvokeParams,
  no_error, fail_run, invoke, reconcile_with, reconcile,
}

-- The first name that has no value.
abbrev pub first_missing : List (String × Option String) → Option String
first_missing [] = none
first_missing ((name, none) ∷ rest) = some name
first_missing ((name, some v) ∷ rest) = first_missing rest

module _ {S P C Cond : Type 0} (r : Reconciler S P C Cond) where
  abbrev pub with_values :
      Option String → Option String → Option String → Option String → List (String × Option String)
  with_values project space job token =
      (project_id, project) ∷ (space_id, space) ∷ (job_id, job) ∷ (invoke_token, token) ∷ []

  -- The parameters that a Run needs, in the order in which they are asked for.
  abbrev pub needed : Run P C → List (String × Option String)
  needed run =
      let get = r.tekton.get_param run.spec.params in
      with_values (get project_id) (get space_id) (get job_id) (get invoke_token)

  abbrev pub missing_token : Error
  missing_token = message "Missing spec.Params[0].invokeToken for Run %s"

  -- What is returned where the parameter `name` is missing.
  abbrev pub refused : String → Subject P C → Outcome (Subject P C × Option Error)
  refused name s =
      if name == invoke_token
      then value (s, some missing_token)
      else value (fail_run r reason_couldnt_get_param "Could not get param: %v" (name ∷ []) s, none)

  reconcile_with-missing :
      (s : Subject P C) (project space job token : Option String) (name : String)
      (w : RunWorld S P C Cond)
      → first_missing (with_values project space job token) ≡ some name
      → reconcile_with r s project space job token w ≡ (refused name s, w)
  unfolding reconcile_with
  reconcile_with-missing s none space job token name w h =
      subst (λ n. reconcile_with r s none space job token w ≡ (refused n s, w))
        (some-injective _ _ h) refl
  reconcile_with-missing s (some a) none job token name w h =
      subst (λ n. reconcile_with r s (some a) none job token w ≡ (refused n s, w))
        (some-injective _ _ h) refl
  reconcile_with-missing s (some a) (some b) none token name w h =
      subst (λ n. reconcile_with r s (some a) (some b) none token w ≡ (refused n s, w))
        (some-injective _ _ h) refl
  reconcile_with-missing s (some a) (some b) (some c) none name w h =
      subst (λ n. reconcile_with r s (some a) (some b) (some c) none w ≡ (refused n s, w))
        (some-injective _ _ h) refl
  reconcile_with-missing s (some a) (some b) (some c) (some d) name w h = cc

  -- Where a parameter is missing nothing is sent and no time passes. A Run that lacks its project,
  -- space or job is marked as failed with the name of the first one that is missing, and no error
  -- is returned; a Run that lacks only its token is left as it is, and an error is returned.
  pub reconcile-missing :
      (s : Subject P C) (name : String) (w : RunWorld S P C Cond)
      → first_missing (needed s.run) ≡ some name
      → reconcile r s w ≡ (refused name s, w)
  unfolding reconcile
  reconcile-missing s name w h =
      let get = r.tekton.get_param s.run.spec.params in
      reconcile_with-missing s (get project_id) (get space_id) (get job_id) (get invoke_token) name
        w h

  -- No error, and two seconds have passed since.
  abbrev pub Answers : ℕ → Outcome (Subject P C × Option Error) × RunWorld S P C Cond → Type 0
  Answers since (panics, w) = since + 2 * second ≤ w.time
  Answers since (value (s, err), w) = (err ≡ none) × (since + 2 * second ≤ w.time)

  no_error-Answers :
      (since : ℕ) (outcome : Outcome (Subject P C)) (w : RunWorld S P C Cond)
      → since + 2 * second ≤ w.time
      → Answers since (no_error outcome, w)
  no_error-Answers since panics w h = h
  no_error-Answers since (value s) w h = (refl, h)

  time-invoke :
      (params : InvokeParams) (s : Subject P C) (w : RunWorld S P C Cond)
      → w.time + 2 * second ≤ (invoke r params s w).1.time
  unfolding invoke
  time-invoke params s w = ground arith

  reconcile_with-given :
      (s : Subject P C) (project space job token : Option String) (w : RunWorld S P C Cond)
      → first_missing (with_values project space job token) ≡ none
      → Answers w.time (reconcile_with r s project space job token w)
  unfolding reconcile_with
  reconcile_with-given s none space job token w h = cc
  reconcile_with-given s (some a) none job token w h = cc
  reconcile_with-given s (some a) (some b) none token w h = cc
  reconcile_with-given s (some a) (some b) (some c) none w h = cc
  reconcile_with-given s (some a) (some b) (some c) (some d) w h =
      let params : InvokeParams = record { project = a; space = b; job = c; token = d } in
      let (outcome, w') = invoke r params s w in
      no_error-Answers w.time outcome w' (time-invoke params s w)

  -- Where all parameters are given, the caller is kept for two seconds, and no error comes back,
  -- not even if the request's answer could not be encoded.
  pub reconcile-given :
      (s : Subject P C) (w : RunWorld S P C Cond)
      → first_missing (needed s.run) ≡ none
      → Answers w.time (reconcile r s w)
  unfolding reconcile
  reconcile-given s w h =
      let get = r.tekton.get_param s.run.spec.params in
      reconcile_with-given s (get project_id) (get space_id) (get job_id) (get invoke_token) w h
