-- ===== src/RunController/StartUp.antt =====
-- From a configuration to the controller: the clientset, the informer factory and the informer of
-- Jobs are put into the context, and `NewController` gets them there.
use mathlib.Core.Path.{subst}
use test_concurrent_reconcil.Base.{
  ℕ, String, Bool, Option, none, some, [], ◌∷◌, EqType, ◌≡◌, refl, sym, ap, ◌∙◌, ◌⊎◌, inl, inr,
}
use test_concurrent_reconcil.Kube.{Error, M, Memory, Resource}
use test_concurrent_reconcil.Clientset.{
  Config, ClientGo, Clientset, Outcome, returned, panicked, new_for_config_or_die,
}
use test_concurrent_reconcil.Informers.{SharedInformerFactory}
use test_concurrent_reconcil.Informers.Jobs.{
  Tweak, Cache, Client, JobInformer, new_filtered_job_informer,
}
use test_concurrent_reconcil.Injection.{
  Versioned, real, versioned, client_key, with_value, Context, Scope, get_client, get_informer,
  store_client, with_client,
}
use test_concurrent_reconcil.Injection.Factories.{informer_at}
use test_concurrent_reconcil.Injection.RoundTrip.{set_up, scoped_to, set_up-Gives}
use test_concurrent_reconcil.Generated.Controller.{Impl, new_impl, set_from}
use test_concurrent_reconcil.Generated.Kinds.{run_new_impl}
use test_concurrent_reconcil.RunController.Events.{Handling, Controller, new_controller}

module _ {Wo L Q Se O C D T Y S JL Wt K I X Ix : Type 0} ⦃e : EqType K⦄
    (client_go : ClientGo Wo L Q Se O C D) (jobs_of : Versioned C D T → Client S JL Wt)
    (scope : Scope Y) (cache : Cache S JL Wt K I X Ix)
    {W JobSpec JobStatus RunSpec RunStatus HJ HR Pc Rl : Type 0}
    (job_handling : Handling W (Resource JobSpec JobStatus) HJ)
    (run_handling : Handling W (Resource RunSpec RunStatus) HR)
    (filter_run_ref : String → String → Resource RunSpec RunStatus → Bool)
    (group_version_string : String × String → String)
    (enqueue : Impl → String × String → M W (Unit {0})) (pkg_path name : String) (pc : Pc)
    (rl : Rl) where
  abbrev Factories : Type 0
  Factories = Memory (SharedInformerFactory K I (Client S JL Wt) Tweak)

  abbrev Result : Type 0
  Result = Outcome (Option (Controller Pc (Versioned C D T) Rl X HJ HR))

  -- `jobInformer.Lister()` of what `Get` gives: the indexer that it stands on.
  abbrev lister_of : Outcome (ℕ × JobInformer) → Factories → Outcome X
  lister_of (panicked err) m = panicked err
  lister_of (returned f) m = returned (cache.get_indexer (informer_at cache f m).0)

  -- `NewController` in a context, where Tekton's packages give `pc` and `rl`.
  abbrev controller_in : Context C D T Y → Factories → Result
  controller_in ctx m =
      new_controller job_handling run_handling filter_run_ref group_version_string enqueue pkg_path
        name (returned pc) (get_client ctx) (returned rl) (lister_of (get_informer ctx) m)

  abbrev wired : Outcome (Context C D T Y × I) → Factories → Result
  wired (panicked err) m = panicked err
  wired (returned (ctx, i)) m = controller_in ctx m

  abbrev launch_in : Outcome (Context C D T Y) → Factories → Result
  launch_in (panicked err) m = panicked err
  launch_in (returned ctx) m = let (made, m') = set_up jobs_of scope cache ctx m in wired made m'

  -- The client, then the factory and the informer, then the controller.
  abbrev pub launch : Config L Q Se O → Context C D T Y → Factories → Wo → Result
  launch cfg ctx m w = launch_in (with_client client_go ctx cfg w).0 m

  -- The indexer of the informer that lists and watches by the clients of a clientset.
  abbrev pub indexer_for : Versioned C D T → Y → X
  indexer_for c outer = cache.get_indexer (
      new_filtered_job_informer cache (jobs_of c) (scoped_to jobs_of scope cache outer)
        (scope.get_resync_period outer)
        ((cache.namespace_index, cache.meta_namespace_index_func) ∷ []) none)

  abbrev pub IsWired : Clientset C D → Y → Controller Pc (Versioned C D T) Rl X HJ HR → Type 0
  IsWired cs outer c = c.reconciler ≡ record {
    pipeline_client_set = pc;
    job_client_set = real cs;
    run_lister = rl;
    job_lister = indexer_for (real cs) outer;
  }

  controller_in-IsWired :
      (ctx : Context C D T Y) (m : Factories) (jc : Versioned C D T) (jl : X)
      → get_client ctx ≡ returned jc
      → lister_of (get_informer ctx) m ≡ returned jl
      → (c : Controller Pc (Versioned C D T) Rl X HJ HR) × (controller_in ctx m ≡ returned (some c))
        × (c.reconciler ≡ record {
          pipeline_client_set = pc;
          job_client_set = jc;
          run_lister = rl;
          job_lister = jl;
        })
  unfolding new_controller run_new_impl new_impl set_from
  controller_in-IsWired ctx m jc jl client lister = rw (client, lister) (_, refl, refl)

  launch_in-IsWired :
      (cs : Clientset C D) (ctx : Context C D T Y) (m : Factories)
      → get_client ctx ≡ returned (real cs)
      → (c : Controller Pc (Versioned C D T) Rl X HJ HR) × (launch_in (returned ctx) m
          ≡ returned (some c))
        × IsWired cs ctx.outer c
  launch_in-IsWired cs ctx m client =
      let (ctx', i, made, gives) = set_up-Gives jobs_of scope cache (real cs) ctx m client in
      let m' = (set_up jobs_of scope cache ctx m).1 in
      let lister : lister_of (get_informer ctx') m' ≡ returned (indexer_for (real cs) ctx.outer) =
        rw (gives.informer) (
          ap (λ j. let r : Outcome X = returned (cache.get_indexer j) in r)
            (gives.again ∙ gives.made)) in
      subst
        (λ out.
          (c : Controller Pc (Versioned C D T) Rl X HJ HR) × (wired out m' ≡ returned (some c))
          × IsWired cs ctx.outer c)
        (sym made)
        (controller_in-IsWired ctx' m' (real cs) (indexer_for (real cs) ctx.outer) gives.client
          lister)

  made-IsWired :
      (made : Outcome (Clientset C D)) (ctx : Context C D T Y) (m : Factories)
      → ((err : Error) × (made ≡ panicked err)
          × (launch_in (store_client ctx made) m ≡ panicked err))
        ⊎ ((cs : Clientset C D) × (c : Controller Pc (Versioned C D T) Rl X HJ HR) × (made
              ≡ returned cs)
            × (launch_in (store_client ctx made) m ≡ returned (some c))
            × IsWired cs ctx.outer c)
  unfolding get_client
  made-IsWired (panicked err) ctx m = inl (err, refl, refl)
  made-IsWired (returned cs) ctx m =
      let (c, launched, wires) =
        launch_in-IsWired cs (with_value client_key (versioned (real cs)) ctx) m refl in
      inr (cs, c, refl, launched, wires)

  -- From any configuration and context, where Tekton's packages give their client and lister: the
  -- start-up panics with the error with which `NewForConfigOrDie` panics, or else `NewController`
  -- returns a controller. Its reconciler has the clientset that was made from the configuration, and
  -- a lister of Jobs over the informer that lists and watches by the clients of that clientset, in
  -- the namespace to which the context is scoped and with the resync period of the context.
  pub launch-IsWired :
      (cfg : Config L Q Se O) (ctx : Context C D T Y) (m : Factories) (w : Wo)
      → ((err : Error) × ((new_for_config_or_die client_go cfg w).0 ≡ panicked err)
          × (launch cfg ctx m w ≡ panicked err))
        ⊎ ((cs : Clientset C D) × (c : Controller Pc (Versioned C D T) Rl X HJ HR)
            × ((new_for_config_or_die client_go cfg w).0 ≡ returned cs)
            × (launch cfg ctx m w ≡ returned (some c))
            × IsWired cs ctx.outer c)
  unfolding with_client
  launch-IsWired cfg ctx m w = made-IsWired (new_for_config_or_die client_go cfg w).0 ctx m
