-- ===== src/Examples/Jobs.antt =====
-- The theorems on the reconciliation of Runs, at the concrete Tekton.
use test_concurrent_reconcil.Base.{
  ℕ, ◌+◌, ◌*◌, ◌≤◌, false, Option, none, some, [], ◌∷◌, ◌≡◌, refl, string_eq, arith,
}
use test_concurrent_reconcil.Base.Maps.{lookup}
use test_concurrent_reconcil.Kube.{Error}
use test_concurrent_reconcil.RunReconciler.Types.{second}
use test_concurrent_reconcil.RunReconciler.Invoke.{value, Subject, InvokeParams, reconcile}
use test_concurrent_reconcil.RunReconciler.Kind.{refers_to_job, reconcile_kind}
use test_concurrent_reconcil.RunReconciler.Throttle.{requested, IsDue, reconcile_kind-interval}
use test_concurrent_reconcil.RunReconciler.Safety.{reconcile_kind_returns}
use test_concurrent_reconcil.RunReconciler.Failures.{
  refused, Answers, reconcile-missing, reconcile-given,
}
use test_concurrent_reconcil.RunReconciler.Skew.{reconcile_kind-creation_lost}
use test_concurrent_reconcil.RunReconciler.Wanted.{IsNew}
use test_concurrent_reconcil.Examples.Runs.{
  Params, Conditions, TestRun, TestWorld, tekton-Documented, reconciler, all_params, run_with,
  world_at,
}

abbrev given : InvokeParams
given = record { project = "p"; space = "s"; job = "j"; token = "t" }

-- A Run that was requested at the time 100, and a time more than five seconds later.
abbrev waiting : TestRun
waiting = run_with none 50 all_params (some 100)

abbrev later : TestWorld
later = world_at (6 * second) waiting

waiting-IsDue : IsDue reconciler waiting 100 later
unfolding refers_to_job
waiting-IsDue = record {
  started = refl;
  known_started = refl;
  waited = omega arith;
  refers = refl;
  not_done = refl;
  not_cancelled = refl;
}

reconcile_kind-interval_example :
    (err : Option Error) × (t : ℕ) × ((reconcile_kind reconciler waiting later).0
      ≡ value (requested reconciler (record { run = waiting; aliased = false }) t, err))
    × ((reconcile_kind reconciler waiting later).1.time ≡ t)
    × (100 + 7 * second ≤ t)
unfolding lookup
reconcile_kind-interval_example =
    reconcile_kind-interval reconciler waiting given 100 later waiting-IsDue
      (refl, refl, refl, refl) refl

-- A new Run.
abbrev new : TestRun
new = run_with none 50 all_params none

reconcile_kind_returns_example :
    (run' : TestRun) × (err : Option Error) × ((reconcile_kind reconciler new (world_at 110 new)).0
      ≡ value (run', err))
reconcile_kind_returns_example =
    reconcile_kind_returns reconciler tekton-Documented new (world_at 110 new)

abbrev without_space : Subject Params Conditions
without_space = record {
  run = run_with none 50 (("project_id", "p") ∷ ("token", "t") ∷ []) (some 100);
  aliased = false;
}

reconcile-missing_example :
    reconcile reconciler without_space later ≡ (refused reconciler "space_id" without_space, later)
unfolding lookup
reconcile-missing_example = reconcile-missing reconciler without_space "space_id" later refl

abbrev complete : Subject Params Conditions
complete = record { run = waiting; aliased = false }

reconcile-given_example : Answers reconciler (6 * second) (reconcile reconciler complete later)
unfolding lookup
reconcile-given_example = reconcile-given reconciler complete later refl

-- A Run with a label that the cached one lacks.
abbrev labelled : TestRun
labelled = run_with (some (("a", "1") ∷ [])) 50 all_params none

-- A new Run that was created, by the API server's clock, far in the future.
abbrev ahead : TestRun
ahead = run_with none 5000 all_params none

ahead-IsNew : IsNew reconciler ahead 112 (world_at 110 ahead)
unfolding refers_to_job
ahead-IsNew = record {
  new = refl;
  not_started = refl;
  refers = refl;
  initialized = refl;
  not_done = refl;
  not_cancelled = refl;
}

reconcile_kind-creation_lost_example :
    let (outcome, after) = reconcile_kind reconciler ahead (world_at 110 ahead) in
    (run' : TestRun) × (err : Option Error) × (outcome ≡ value (run', err))
    × (run'.status.start_time ≡ some after.time)
    × (run'.meta.creation_timestamp ≡ after.time)
unfolding lookup
reconcile_kind-creation_lost_example =
    reconcile_kind-creation_lost reconciler ahead given 112 (world_at 110 ahead) ahead-IsNew
      (omega arith) (refl, refl, refl, refl) refl
