-- ===== src/RunReconciler/Invoke.antt =====
-- `reconcile` of job.go, the types that it shares with `ReconcileKind`, and the fake request. A
-- dereference of a nil pointer is an outcome of its own. Logging and printing are left out, but for
-- the clock readings that they make.
use test_concurrent_reconcil.Base.{
  ℕ, ◌*◌, String, Bool, Option, none, some, List, [], ◌∷◌, if◌then◌else◌, string_eq,
}
use test_concurrent_reconcil.Kube.{Error, message, Returns, M, pure, now, sleep, ◌>>=◌, ◌>>◌}
use test_concurrent_reconcil.RunReconciler.Types.{
  Run, RunWorld, second, reason_internal_error, reason_couldnt_get_param, Reconciler,
}

-- `SchemeGroupVersion` of pkg/apis/job/v1alpha1/register.go
abbrev pub scheme_group_version : String × String
scheme_group_version = ("custom.tekton.dev", "v1alpha1")

abbrev pub project_id : String
project_id = "project_id"

abbrev pub space_id : String
space_id = "space_id"

abbrev pub job_id : String
job_id = "job_id"

abbrev pub invoke_token : String
invoke_token = "token"

pub record InvokeParams : Type 0 where
  pub project : String
  pub space : String
  pub job : String
  pub token : String

-- What a method leaves: a panic, or a value.
pub data Outcome (A : Type 0) : Type 0 where
  panics : Outcome A
  value : A → Outcome A

-- The Run that is worked on. `aliased` tells that `run.Status.StartTime` points to
-- `run.CreationTimestamp`: a write through the one changes the other.
pub record Subject (P C : Type 0) : Type 0 where
  pub run : Run P C
  pub aliased : Bool

module _ {P C : Type 0} where
  abbrev pub set_conditions : C → Run P C → Run P C
  set_conditions c run = record run { status = record run.status { conditions = c } }

  abbrev pub set_start_time : Option ℕ → Run P C → Run P C
  set_start_time t run = record run { status = record run.status { start_time = t } }

  abbrev pub with_start_time : ℕ → Subject P C → Subject P C
  with_start_time t s = record s {
    run = record (set_start_time (some t) s.run) {
      meta = if s.aliased then record s.run.meta { creation_timestamp = t } else s.run.meta;
    };
  }

  abbrev pub write_through : ℕ → Subject P C → Option ℕ → Outcome (Subject P C)
  write_through t s none = panics
  write_through t s (some old) = value (with_start_time t s)

  -- `run.Status.StartTime.Time = t`
  abbrev pub write_start_time : ℕ → Subject P C → Outcome (Subject P C)
  write_start_time t s = write_through t s s.run.status.start_time

  abbrev pub no_error : Outcome (Subject P C) → Outcome (Subject P C × Option Error)
  no_error panics = panics
  no_error (value s) = value (s, none)

module _ {S P C Cond : Type 0} where
  unfoldable pub send_fake_request : InvokeParams → M (RunWorld S P C Cond) (Returns String)
  send_fake_request params = do sleep (2 * second); pure ("", none)

  abbrev pub fail_run :
      Reconciler S P C Cond → String → String → List String → Subject P C → Subject P C
  fail_run r reason format args s = record s {
    run =
        set_conditions (r.tekton.mark_run_failed reason format args s.run.status.conditions) s.run;
  }

  -- From the parameters on: the request, and its answer written to the status.
  unfoldable pub invoke :
      Reconciler S P C Cond
      → InvokeParams
      → Subject P C
      → M (RunWorld S P C Cond) (Outcome (Subject P C))
  unfolding send_fake_request
  invoke r params s = do
    (run_id, err) ← send_fake_request params
    let (conditions, failed) = r.tekton.encode_extra_fields run_id s.run.status.conditions
    let encoded = record s { run = set_conditions conditions s.run }
    elim failed [
      | some e ↦ pure (
          value (
            fail_run r reason_internal_error "Internal error calling EncodeExtraFields: %v"
              (r.tekton.error_text e ∷ []) encoded))
      | none ↦ do t ← now; pure (write_start_time t encoded)
    ]

  abbrev pub missing :
      Reconciler S P C Cond
      → String
      → Subject P C
      → M (RunWorld S P C Cond) (Outcome (Subject P C × Option Error))
  missing r name s =
      pure
        (value (fail_run r reason_couldnt_get_param "Could not get param: %v" (name ∷ []) s, none))

  -- `reconcile`, from the values of the four parameters in the order in which they are read.
  unfoldable pub reconcile_with :
      Reconciler S P C Cond
      → Subject P C
      → Option String
      → Option String
      → Option String
      → Option String
      → M (RunWorld S P C Cond) (Outcome (Subject P C × Option Error))
  reconcile_with r s none space job token = missing r project_id s
  reconcile_with r s (some project) none job token = missing r space_id s
  reconcile_with r s (some project) (some space) none token = missing r job_id s
  reconcile_with r s (some project) (some space) (some job) none =
      pure (value (s, some (message "Missing spec.Params[0].invokeToken for Run %s")))
  reconcile_with r s (some project) (some space) (some job) (some token) = do
    outcome ← invoke r (record { project = project; space = space; job = job; token = token }) s
    pure (no_error outcome)

  unfoldable pub reconcile :
      Reconciler S P C Cond
      → Subject P C
      → M (RunWorld S P C Cond) (Outcome (Subject P C × Option Error))
  unfolding reconcile_with
  reconcile r s =
      let get = r.tekton.get_param s.run.spec.params in
      reconcile_with r s (get project_id) (get space_id) (get job_id) (get invoke_token)
