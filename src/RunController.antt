-- ===== src/RunController.antt =====
-- The controller of Runs: the generated reconciler of Runs (Generated) around the `Reconciler` of
-- pkg/reconciler/job/job.go (RunReconciler).
pub mod Skipping
pub mod Laws
pub mod Finishing
pub mod Storing
pub mod Resting
pub mod Rate
pub mod Clock
pub mod Events
pub mod Enqueuing
pub mod StartUp
use test_concurrent_reconcil.Base.{String, Bool, Option, none}
use test_concurrent_reconcil.Kube.{Error, Returns, M}
use test_concurrent_reconcil.Generated.Types.{DoReconcile, Interface, Client, Library}
use test_concurrent_reconcil.Generated.RunKind.{RunParts}
use test_concurrent_reconcil.RunReconciler.Types.{
  Run, RunSpec, RunStatus, Emit, RunWorld, Reconciler,
}
use test_concurrent_reconcil.RunReconciler.Invoke.{Outcome, panics, value}
use test_concurrent_reconcil.RunReconciler.Kind.{reconcile_kind}

module _ {P C : Type 0} where
  -- A panic ends the process; the Run as it was stands for it here.
  abbrev pub value_or : Run P C → Outcome (Run P C × Option Error) → Returns (Run P C)
  value_or run panics = (run, none)
  value_or run (value (run', err)) = (run', err)

module _ {S P C Cond : Type 0} where
  abbrev pub kind_method : Reconciler S P C Cond → DoReconcile (RunWorld S P C Cond) (Run P C)
  kind_method r run w = let (outcome, w') = reconcile_kind r run w in (value_or run outcome, w')

  -- job.go implements `Interface` and none of the optional interfaces.
  abbrev pub run_interface : Reconciler S P C Cond → Interface (RunWorld S P C Cond) (Run P C)
  run_interface r = record {
    reconcile_kind = kind_method r;
    finalizer = none;
    read_only_interface = none;
    read_only_finalizer = none;
  }

module _ {S P C Cond T : Type 0} where
  abbrev pub run_controller :
      Reconciler S P C Cond
      → Library S (RunSpec P) (RunStatus C) (Emit Cond) T
      → Client S (Run P C)
      → String
      → Bool
      → RunParts S (RunSpec P) (RunStatus C) (Emit Cond) T
  run_controller r library client finalizer_name skip_status_updates = record {
    library = library;
    client = client;
    reconciler = run_interface r;
    finalizer_name = finalizer_name;
    skip_status_updates = skip_status_updates;
  }
