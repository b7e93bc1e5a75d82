-- ===== src/Examples/StartUp.antt =====
-- The theorem on the start-up of the controller, with the clients and the handlers of the other
-- examples.
use test_concurrent_reconcil.Base.{ℕ, Option, some, ◌≡◌, ◌⊎◌, string_eq}
use test_concurrent_reconcil.Kube.{Error, M, Resource}
use test_concurrent_reconcil.Clientset.{
  Clientset, Outcome, returned, panicked, new_for_config_or_die,
}
use test_concurrent_reconcil.Injection.{Versioned}
use test_concurrent_reconcil.RunController.Events.{Event, Controller}
use test_concurrent_reconcil.RunController.StartUp.{launch, IsWired, launch-IsWired}
use test_concurrent_reconcil.Examples.Runs.{TestRun}
use test_concurrent_reconcil.Examples.Clientsets.{
  client_go, config, cache, clients, context, scope, no_factories,
}
use test_concurrent_reconcil.Examples.Events.{Queue, handling, refers_to, enqueue}

abbrev TestController : Type 0
TestController =
    Controller ℕ (Versioned (Option ℕ) (Option ℕ) ℕ) ℕ ℕ
      (Event (Resource (Unit {0}) (Unit {0})) → M Queue (Unit {0}))
      (Event TestRun → M Queue (Unit {0}))

abbrev launched : Outcome (Option TestController)
launched =
    launch client_go (λ c. clients) scope cache handling handling refers_to (λ version. version.0)
      enqueue "pkg/job" "Reconciler" 1 3 config context no_factories 3

launch-IsWired_example :
    ((err : Error) × ((new_for_config_or_die client_go config 3).0 ≡ panicked err)
      × (launched ≡ panicked err))
    ⊎ ((cs : Clientset (Option ℕ) (Option ℕ)) × (c : TestController) × ((new_for_config_or_die
            client_go config 3).0
          ≡ returned cs)
        × (launched ≡ returned (some c))
        × IsWired client_go
            (λ c. clients)
            scope
            cache
            handling
            handling
            refers_to
            (λ version. version.0)
            enqueue
            "pkg/job"
            "Reconciler"
            1
            3
            cs
            "team"
            c)
launch-IsWired_example =
    launch-IsWired client_go (λ c. clients) scope cache handling handling refers_to
      (λ version. version.0) enqueue "pkg/job" "Reconciler" 1 3 config context no_factories 3
