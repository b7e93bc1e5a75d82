-- ===== src/RunReconciler/Labels.antt =====
-- The functions of job.go on labels and annotations.
use test_concurrent_reconcil.Base.{String, Bool, true, false, none, some, [], string_eq}
use test_concurrent_reconcil.Base.Maps.{Map, insert, insert_all, same_entries}
use test_concurrent_reconcil.Kube.{ObjectMeta, StringMap, Resource}

-- `reflect.DeepEqual` of two string maps: a nil map differs from an empty one.
unfoldable pub deep_equal : StringMap → StringMap → Bool
unfolding same_entries
deep_equal none none = true
deep_equal (some a) (some b) = same_entries a b
deep_equal _ _ = false

-- A range over a nil map has no rounds.
abbrev pub entries : StringMap → Map String String
entries none = []
entries (some m) = m

-- `if m == nil { m = make(map[string]string, n) }`
abbrev pub or_made : StringMap → Map String String
or_made m = entries m

-- `job_key` is `job.GroupName+"/job"`.
abbrev pub job_key : String
job_key = "custom.tekton.dev/job"

module _ {Spec Status : Type 0} where
  unfoldable pub propagate_exception_labels_and_annotations :
      Resource Spec Status → ObjectMeta → Resource Spec Status
  propagate_exception_labels_and_annotations run exception_meta = record run {
    meta = record run.meta {
      labels = some (
          insert job_key exception_meta.name
            (insert_all (entries exception_meta.labels) (or_made run.meta.labels)));
      annotations =
          some (insert_all (entries exception_meta.annotations) (or_made run.meta.annotations));
    };
  }

  unfoldable pub get_pipeline_run_annotations : Resource Spec Status → Map String String
  get_pipeline_run_annotations run = insert_all (entries run.meta.annotations) []

  -- `run_key` is `pipeline.GroupName+"/run"` of Tekton.
  unfoldable pub get_task_run_labels : String → Resource Spec Status → Map String String
  get_task_run_labels run_key run =
      insert run_key run.meta.name (insert_all (entries run.meta.labels) [])
