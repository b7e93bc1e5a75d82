-- ===== src/Injection/RoundTrip.antt =====
-- What the set-up of the injection puts into a context, its `Get` functions give back.
use test_concurrent_reconcil.Base.{
  ℕ, String, none, [], ◌∷◌, Option-cases, Bool-cases, inl, inr, if◌then◌else◌, EqType, ◌≡◌, refl,
  sym, ap, ◌∙◌,
}
use test_concurrent_reconcil.Kube.{M, Memory, pure, ◌>>=◌, alloc, written_same}
use test_concurrent_reconcil.Clientset.{Outcome, returned, panicked}
use test_concurrent_reconcil.Base.Maps.{lookup}
use test_concurrent_reconcil.Informers.{
  SharedInformerFactory, informer_for, new_shared_informer_factory_with_options,
}
use test_concurrent_reconcil.Informers.Once.{informer_for_again}
use test_concurrent_reconcil.Informers.Jobs.{
  Tweak, Cache, Client, JobInformer, default_informer, new_filtered_job_informer, job_informer,
  custom, v1alpha1, jobs,
}
use test_concurrent_reconcil.Injection.{
  Versioned, Context, Scope, factory, informer, factory_key, informer_key, with_value, get_client,
  get_factory, get_informer,
}
use test_concurrent_reconcil.Injection.Factories.{
  options_of, with_informer_factory, informer_at, with_informer,
}

same_job_informer :
    (f g : JobInformer)
    → f.tweak_list_options ≡ g.tweak_list_options
    → f.namespace ≡ g.namespace
    → f ≡ g
same_job_informer f g p q = cc

module _ {C D T Y S JL Wt K I X Ix : Type 0} ⦃e : EqType K⦄
    (jobs_of : Versioned C D T → Client S JL Wt) (scope : Scope Y)
    (lib : Cache S JL Wt K I X Ix) where
  abbrev pub informer_of :
      Outcome (Context C D T Y)
      → M
          (Memory (SharedInformerFactory K I (Client S JL Wt) Tweak))
          (Outcome (Context C D T Y × I))
  informer_of (panicked err) = pure (panicked err)
  informer_of (returned ctx) = with_informer lib ctx

  -- The factory, then the informer, as the injection runs what was registered.
  abbrev pub set_up :
      Context C D T Y
      → M
          (Memory (SharedInformerFactory K I (Client S JL Wt) Tweak))
          (Outcome (Context C D T Y × I))
  set_up ctx = do made ← with_informer_factory jobs_of scope ctx; informer_of made

  abbrev pub scoped_to : Y → String
  scoped_to outer = if scope.has_namespace_scope outer then scope.get_namespace_scope outer else ""

  -- In a context that has been set up, from a clientset: what the Get functions give.
  pub record Gives (c : Versioned C D T) (outer : Y) (p : ℕ) (i : I) (ctx : Context C D T Y)
      (m : Memory (SharedInformerFactory K I (Client S JL Wt) Tweak)) : Type 0 where
    pub client : get_client ctx ≡ returned c
    pub factory : get_factory ctx ≡ returned p
    pub factory_client : (m.at p).client ≡ jobs_of c
    pub factory_namespace : (m.at p).namespace ≡ scoped_to outer
    pub made :
        i
        ≡ new_filtered_job_informer lib
            (jobs_of c)
            (scoped_to outer)
            (scope.get_resync_period outer)
            ((lib.namespace_index, lib.meta_namespace_index_func) ∷ [])
            none
    pub informer :
        get_informer ctx
        ≡ returned (p, record { tweak_list_options = none; namespace = (m.at p).namespace })
    pub again :
        (informer_at lib
          (p, record { tweak_list_options = none; namespace = (m.at p).namespace })
          m).0
        ≡ i

  informer_for-fields :
      (new_func : Client S JL Wt → ℕ → I) (k : K)
      (f : SharedInformerFactory K I (Client S JL Wt) Tweak)
      → ((informer_for new_func k f).1.client ≡ f.client)
        × ((informer_for new_func k f).1.namespace ≡ f.namespace)
        × ((informer_for new_func k f).1.tweak_list_options ≡ f.tweak_list_options)
  unfolding informer_for
  informer_for-fields new_func k f = elim (Option-cases (lookup k f.informers)) [
    | inl absent ↦ simp absent (refl, refl, refl)
    | inr (i, present) ↦ simp present (refl, refl, refl)
  ]

  with_informer-lem :
      (p : ℕ) (ctx : Context C D T Y)
      (m : Memory (SharedInformerFactory K I (Client S JL Wt) Tweak))
      → let inf = jobs (v1alpha1 (custom (m.at p))) in
        let i = (informer_for (default_informer lib inf) lib.job_type (m.at p)).0 in
        let (out, m') = with_informer lib (with_value factory_key (factory p) ctx) m in
        (out
          ≡ returned (
            with_value informer_key (informer p inf) (with_value factory_key (factory p) ctx),
            i,
          ))
        × ((m'.at p).client ≡ (m.at p).client)
        × ((m'.at p).namespace ≡ (m.at p).namespace)
        × ((informer_at lib (p, inf) m').0 ≡ i)
  unfolding with_informer informer_at job_informer get_factory
  with_informer-lem p ctx m =
      let inf = jobs (v1alpha1 (custom (m.at p))) in
      let made = default_informer lib inf in
      let f' = (informer_for made lib.job_type (m.at p)).1 in
      let here = written_same p f' m.at in
      let (client, namespace, tweak) = informer_for-fields made lib.job_type (m.at p) in
      (
        refl,
        rw here client,
        rw here namespace,
        rw here (informer_for_again made made lib.job_type [] (m.at p) []),
      )

  -- The factory that is made for the clientset `c`.
  abbrev made_for : Versioned C D T → Y → SharedInformerFactory K I (Client S JL Wt) Tweak
  made_for c outer =
      new_shared_informer_factory_with_options (jobs_of c) (scope.get_resync_period outer)
        (options_of scope outer)

  with_informer_factory-lem :
      (c : Versioned C D T) (ctx : Context C D T Y)
      (m : Memory (SharedInformerFactory K I (Client S JL Wt) Tweak))
      → get_client ctx ≡ returned c
      → with_informer_factory jobs_of scope ctx m ≡ (
        returned (with_value factory_key (factory m.size) ctx),
        (alloc (made_for c ctx.outer) m).1,
      )
  unfolding with_informer_factory
  with_informer_factory-lem c ctx m h = rw h refl

  made_for-fields :
      (c : Versioned C D T) (outer : Y)
      → ((made_for c outer).client ≡ jobs_of c)
        × ((made_for c outer).namespace ≡ (scoped_to outer))
        × ((made_for c outer).tweak_list_options ≡ none)
  unfolding new_shared_informer_factory_with_options
  made_for-fields c outer = elim (Bool-cases (scope.has_namespace_scope outer)) [
    | inl scoped ↦ simp scoped (refl, refl, refl)
    | inr all ↦ simp all (refl, refl, refl)
  ]

  first_informer :
      (c : Versioned C D T) (outer : Y)
      → let f = made_for c outer in
        (informer_for (default_informer lib (jobs (v1alpha1 (custom f)))) lib.job_type f).0
        ≡ new_filtered_job_informer lib
            (jobs_of c)
            (scoped_to outer)
            (scope.get_resync_period outer)
            ((lib.namespace_index, lib.meta_namespace_index_func) ∷ [])
            none
  unfolding new_shared_informer_factory_with_options informer_for lookup
  first_informer c outer = elim (Bool-cases (scope.has_namespace_scope outer)) [
    | inl scoped ↦ simp scoped refl
    | inr all ↦ simp all refl
  ]

  -- Whatever context a clientset is got from: the factory and the informer of Jobs are set up in it
  -- without a panic, and then the Get functions give that clientset, the new factory, which has the
  -- clients of that clientset and the namespace to which the context is scoped (all of them where
  -- it is not), and the JobInformer of that factory, whose informer is the one that was set up.
  -- That one lists and watches by the clients of the clientset, in that namespace, with options as
  -- they come, and is resynced with the period of the context.
  pub set_up-Gives :
      (c : Versioned C D T) (ctx : Context C D T Y)
      (m : Memory (SharedInformerFactory K I (Client S JL Wt) Tweak))
      → get_client ctx ≡ returned c
      → (ctx' : Context C D T Y) × (i : I) × ((set_up ctx m).0 ≡ returned (ctx', i))
        × Gives c ctx.outer m.size i ctx' (set_up ctx m).1
  unfolding get_factory get_informer
  set_up-Gives c ctx m h =
      let m1 = (alloc (made_for c ctx.outer) m).1 in
      let at_new = written_same m.size (made_for c ctx.outer) m.at in
      let (client, namespace, tweak) = made_for-fields c ctx.outer in
      let (out, same_client, same_namespace, again) = with_informer-lem m.size ctx m1 in
      let m' = (with_informer lib (with_value factory_key (factory m.size) ctx) m1).1 in
      let same_informer : jobs (v1alpha1 (custom (m1.at m.size)))
          ≡ (record { tweak_list_options = none; namespace = (m'.at m.size).namespace }) =
        same_job_informer _ _ (ap (λ f. f.tweak_list_options) at_new ∙ tweak)
          (sym same_namespace) in
      rw (with_informer_factory-lem c ctx m h) (
        _,
        _,
        out,
        record {
          client = unfold get_client in h;
          factory = refl;
          factory_client = same_client ∙ ap (λ f. f.client) at_new ∙ client;
          factory_namespace = same_namespace ∙ ap (λ f. f.namespace) at_new ∙ namespace;
          made =
              ap
                (λ (f : SharedInformerFactory K I (Client S JL Wt) Tweak).
                  (informer_for (default_informer lib (jobs (v1alpha1 (custom f)))) lib.job_type
                    f).0)
                at_new
              ∙ first_informer c ctx.outer;
          informer =
              ap
                (λ (f : JobInformer). let r : Outcome (ℕ × JobInformer) = returned (m.size, f) in r)
                same_informer;
          again =
              ap (λ (f : JobInformer). (informer_at lib (m.size, f) m').0) (sym same_informer)
              ∙ again;
        },
      )
