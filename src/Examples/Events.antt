-- ===== src/Examples/Events.antt =====
-- The theorem on the handlers of the informers, at handlers that are functions.
use test_concurrent_reconcil.Base.{
  ℕ, Bool, false, Option, none, some, List, [], ◌∷◌, ◌≡◌, nat_eq, refl, string_eq, ◌&&◌, ◌==◌,
  String,
}
use test_concurrent_reconcil.Kube.{M, Resource}
use test_concurrent_reconcil.Clientset.{returned}
use test_concurrent_reconcil.Generated.Controller.{Impl}
use test_concurrent_reconcil.RunController.Events.{
  Event, added, updated, current, passed, Handling, Documented as Documented_events, Controller,
  new_controller,
}
use test_concurrent_reconcil.RunController.Enqueuing.{Enqueues, new_controller-Enqueues}
use test_concurrent_reconcil.Examples.Runs.{TestRun, all_params, run_with}

abbrev some_run : TestRun
some_run = run_with none 50 all_params none

-- A handler is its function; a queue is the list of its keys.
abbrev pub Queue : Type 0
Queue = List (String × String)

abbrev pub notify_passed :
    {O : Type 0} → (Event O → M Queue (Unit {0})) → Option (Event O) → M Queue (Unit {0})
notify_passed h none q = (tt, q)
notify_passed h (some ev) q = h ev q

abbrev pub handling : {O : Type 0} → Handling Queue O (Event O → M Queue (Unit {0}))
handling = record {
  handle_all = λ f ev. f (current ev);
  filtering = λ f h ev. notify_passed h (passed f ev);
  notify = λ h ev. h ev;
}

handling-Documented : {O : Type 0} → Documented_events (handling {O = O})
handling-Documented = record {
  notify-handle_all = λ h ev w. refl;
  notify-filtered = λ f h ev w dropped. rw dropped refl;
  notify-passed = λ f h ev ev' w kept. rw kept refl;
}

abbrev pub refers_to : String → String → TestRun → Bool
refers_to api_version kind run = elim run.spec.ref [
  | none ↦ false
  | some ref ↦ ref.api_version == api_version && ref.kind == kind
]

abbrev pub enqueue : Impl → String × String → M Queue (Unit {0})
enqueue impl key q = (tt, key ∷ q)

abbrev job : Resource (Unit {0}) (Unit {0})
job = record { meta = some_run.meta; spec = tt; status = tt }

new_controller-Enqueues_example :
    (c : Controller ℕ ℕ ℕ ℕ
      (Event (Resource (Unit {0}) (Unit {0})) → M Queue (Unit {0}))
      (Event TestRun → M Queue (Unit {0})))
    × (new_controller handling handling refers_to
          (λ version. version.0)
          enqueue
          "pkg/job"
          "Reconciler"
          (returned 1)
          (returned 2)
          (returned 3)
          (returned 4)
        ≡ returned (some c))
    × (c.reconciler
        ≡ record { pipeline_client_set = 1; job_client_set = 2; run_lister = 3; job_lister = 4 })
    × Enqueues handling handling refers_to
        (λ version. version.0)
        enqueue
        c
        (added job)
        (updated some_run some_run)
        []
new_controller-Enqueues_example =
    new_controller-Enqueues handling handling refers_to (λ version. version.0) enqueue
      handling-Documented handling-Documented "pkg/job" "Reconciler" 1 2 3 4 (added job)
      (updated some_run some_run) []
