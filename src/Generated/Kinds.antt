-- ===== src/Generated/Kinds.antt =====
-- What controller.go and `NewReconciler` of the two kinds make of the common functions: the default
-- names, and the names of the work queues, from the package path and the name of the reconciler's
-- type.
use Prim.Native.String.{◌++◌}
use test_concurrent_reconcil.Base.{String, Bool, Option, List}
use test_concurrent_reconcil.Generated.Controller.{
  Options, Settings, Impl, new_reconciler, new_impl, replace_slashes,
}

abbrev pub job_agent_name : String
job_agent_name = "job-controller"

abbrev pub job_finalizer_name : String
job_finalizer_name = "jobs.custom.tekton.dev"

abbrev pub run_agent_name : String
run_agent_name = "run-controller"

abbrev pub run_finalizer_name : String
run_finalizer_name = "runs.tekton.dev"

unfoldable pub job_queue_name : String → String → String
job_queue_name pkg_path name = replace_slashes "-" pkg_path ++ "." ++ name

unfoldable pub run_queue_name : String → String → String
run_queue_name pkg_path name = replace_slashes "." (pkg_path ++ "." ++ name)

module _ {Cfg : Type 0} where
  unfoldable pub job_new_impl :
      String → String → List (Impl → Options Cfg) → Option ((Settings Cfg × String) × Impl)
  job_new_impl pkg_path name =
      new_impl job_finalizer_name job_agent_name (job_queue_name pkg_path name)

  unfoldable pub run_new_impl :
      String → String → List (Impl → Options Cfg) → Option ((Settings Cfg × String) × Impl)
  run_new_impl pkg_path name =
      new_impl run_finalizer_name run_agent_name (run_queue_name pkg_path name)

  unfoldable pub job_new_reconciler : Bool → List (Options Cfg) → Option (Settings Cfg)
  job_new_reconciler = new_reconciler job_finalizer_name

  unfoldable pub run_new_reconciler : Bool → List (Options Cfg) → Option (Settings Cfg)
  run_new_reconciler = new_reconciler run_finalizer_name
