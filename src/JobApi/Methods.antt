-- ===== src/JobApi/Methods.antt =====
-- The methods of the API types: register.go, job_lifecycle.go, job_defaults.go, job_validation.go
-- and job_types.go of pkg/apis/job/v1alpha1.
use test_concurrent_reconcil.Base.{String, Option, none, List, [], ◌∷◌}
use test_concurrent_reconcil.JobApi.{Job, JobSpec, JobStatus}

-- `schema.GroupKind` and `schema.GroupResource`
pub record GroupKind : Type 0 where
  pub group : String
  pub kind : String

pub record GroupResource : Type 0 where
  pub group : String
  pub resource : String

pub record GroupVersionKind : Type 0 where
  pub group : String
  pub version : String
  pub kind : String

abbrev pub group_name : String
group_name = "custom.tekton.dev"

abbrev pub with_kind : String → GroupVersionKind
with_kind kind = record { group = group_name; version = "v1alpha1"; kind = kind }

abbrev pub group_kind : String → GroupKind
group_kind kind = record { group = (with_kind kind).group; kind = (with_kind kind).kind }

abbrev pub group_resource : String → GroupResource
group_resource resource = record { group = group_name; resource = resource }

abbrev pub get_group_version_kind : GroupVersionKind
get_group_version_kind = with_kind "Job"

-- What the scheme of apimachinery is asked for: the types that are registered under the group and
-- version (here by their names), and the types that each group has.
pub record SchemeLib (Sc : Type 0) : Type 0 where
  pub add_known_types : String × String → List String → Sc → Sc
  pub add_to_group_version : String × String → Sc → Sc

-- Its error is always nil.
abbrev pub add_known_types : {Sc : Type 0} → SchemeLib Sc → Sc → Sc
add_known_types lib scheme =
    lib.add_to_group_version (group_name, "v1alpha1")
      (lib.add_known_types (group_name, "v1alpha1") ("Job" ∷ "JobList" ∷ []) scheme)

-- `apis.ConditionSet` of knative.dev/pkg, as it acts on a `duckv1.Status`.
pub record ConditionSet (Ds : Type 0) : Type 0 where
  pub initialize_conditions : Ds → Ds
  pub mark_true : String → Ds → Ds
  pub mark_false : String → String → String → List String → Ds → Ds

-- `JobConditionReady`, which is `apis.ConditionReady`
abbrev pub job_condition_ready : String
job_condition_ready = "Ready"

module _ {Ds : Type 0} where
  abbrev pub initialize_conditions : ConditionSet Ds → JobStatus Ds → JobStatus Ds
  initialize_conditions cond_set exs = record exs {
    status = cond_set.initialize_conditions exs.status;
  }

  abbrev pub mark_service_unavailable : ConditionSet Ds → String → JobStatus Ds → JobStatus Ds
  mark_service_unavailable cond_set name exs = record exs {
    status =
        cond_set.mark_false job_condition_ready "ServiceUnavailable" "Service %q wasn't found."
          (name ∷ []) exs.status;
  }

  abbrev pub mark_service_available : ConditionSet Ds → JobStatus Ds → JobStatus Ds
  mark_service_available cond_set exs = record exs {
    status = cond_set.mark_true job_condition_ready exs.status;
  }

module _ {Om Ds : Type 0} where
  -- The part of the Job that the pointer points to.
  abbrev pub get_status : Job Om Ds → Ds
  get_status ex = ex.status.status

  abbrev pub set_defaults : Job Om Ds → Job Om Ds
  set_defaults as_job = as_job

-- `FieldError.ViaField` of knative.dev/pkg on `E`; a nil error is `none`.
module _ {E : Type 0} where
  abbrev pub validate_spec : JobSpec → Option E
  validate_spec exs = none

  abbrev pub validate : {Om Ds : Type 0} → (Option E → String → Option E) → Job Om Ds → Option E
  validate via_field as_job = via_field (validate_spec as_job.spec) "spec"
