-- ===== src/RunReconciler/Types.antt =====
-- The Run of Tekton as far as job.go reads and writes it, and what job.go calls. `P` stands for the
-- parameters of a Run's spec, `C` for its status without the start time (observed generation,
-- conditions, results, extra fields), `Cond` for one condition.
use test_concurrent_reconcil.Base.{ℕ, String, Bool, Option, List, ◌^◌, ◌≡◌}
use test_concurrent_reconcil.Kube.{Error, Returns, Resource, World, M, Json}

pub record TaskRef : Type 0 where
  pub api_version : String
  pub kind : String

pub record RunSpec (P : Type 0) : Type 0 where
  pub ref : Option TaskRef
  pub params : P

pub record RunStatus (C : Type 0) : Type 0 where
  pub start_time : Option ℕ
  pub conditions : C

abbrev pub Run : Type 0 → Type 0 → Type 0
Run P C = Resource (RunSpec P) (RunStatus C)

-- A call of `events.Emit` with the condition before and after.
pub record Emit (Cond : Type 0) : Type 0 where
  pub before : Option Cond
  pub after : Option Cond

abbrev pub RunWorld : Type 0 → Type 0 → Type 0 → Type 0 → Type 0
RunWorld S P C Cond = World S (Run P C) (Emit Cond)

-- A nanosecond is the unit of time.
abbrev pub second : ℕ
second = 10 ^ 9

-- The reasons of a failed Run (`JobRunReason` of pkg/apis/job/v1alpha1/job_types.go).
abbrev pub reason_internal_error : String
reason_internal_error = "JobInternalError"

abbrev pub reason_couldnt_get_param : String
reason_couldnt_get_param = "JobCouldntFoundParam"

-- Methods of Tekton's Run, go-multierror's `Append`, `schema.GroupVersion.String`.
pub record Tekton (P C Cond : Type 0) : Type 0 where
  pub get_param : P → String → Option String
  pub has_started : Option ℕ → Bool
  pub is_done : C → Bool
  pub is_cancelled : RunSpec P → Bool
  pub initialize_conditions : ℕ → RunStatus C → RunStatus C
  pub get_condition : C → Option Cond
  pub mark_run_failed : String → String → List String → C → C
  pub encode_extra_fields : String → C → C × Option Error
  pub error_text : Error → String
  pub append : Option Error → Error → Error
  pub group_version_string : String × String → String

-- `Reconciler`: the fields that its methods use, and encoding/json.
pub record Reconciler (S P C Cond : Type 0) : Type 0 where
  pub tekton : Tekton P C Cond
  pub run_lister_get : String → String → M S (Returns (Run P C))
  pub patch_run : String → String → String → M S (Returns (Run P C))
  pub marshal : Json → Returns String

-- What is relied on: a Run that has started has a start time, and `InitializeConditions` sets one.
pub record Documented {P C Cond : Type 0} (t : Tekton P C Cond) : Type 0 where
  pub has_started-nil : t.has_started Option.none ≡ Bool.false
  pub initialize_conditions-start_time :
      (now : ℕ) (s : RunStatus C)
      → (start : ℕ) × ((t.initialize_conditions now s).start_time ≡ Option.some start)
