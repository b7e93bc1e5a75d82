-- ===== src/Injection/Factories.antt =====
-- pkg/client/injection/informers: the informer factory and the informer of Jobs in the context, for
-- the clientset and for its fake.
use test_concurrent_reconcil.Base.{ℕ, List, [], ◌∷◌, if◌then◌else◌, EqType}
use test_concurrent_reconcil.Kube.{M, Memory, alloc, store, pure, ◌>>=◌}
use test_concurrent_reconcil.Clientset.{Outcome, returned, panicked}
use test_concurrent_reconcil.Clientset.Fake.{FakeClientset}
use test_concurrent_reconcil.Informers.{
  SharedInformerFactory, with_namespace, new_shared_informer_factory_with_options,
}
use test_concurrent_reconcil.Informers.Jobs.{
  Tweak, Cache, Client, JobInformer, job_informer, custom, v1alpha1, jobs,
}
use test_concurrent_reconcil.Injection.{
  Versioned, fake, Context, Scope, factory, informer, factory_key, informer_key, with_value,
  get_client, get_fake_client, get_factory,
}

module _ {C D T : Type 0} where
  abbrev pub fake_versioned : Outcome (FakeClientset T) → Outcome (Versioned C D T)
  fake_versioned (panicked err) = panicked err
  fake_versioned (returned c) = returned (fake c)

module _ {Y S JL Wt K I : Type 0} where
  abbrev pub options_of :
      Scope Y
      → Y
      → List (
          SharedInformerFactory K I (Client S JL Wt) Tweak
          → SharedInformerFactory K I (Client S JL Wt) Tweak)
  options_of lib outer =
      if lib.has_namespace_scope outer
      then with_namespace (lib.get_namespace_scope outer) ∷ []
      else []

module _ {C D T Y S JL Wt K I : Type 0} where
  -- `jobs_of` stands for the clients of Jobs that a clientset has.
  abbrev pub make_factory :
      (Versioned C D T → Client S JL Wt)
      → Scope Y
      → Context C D T Y
      → Outcome (Versioned C D T)
      → M (Memory (SharedInformerFactory K I (Client S JL Wt) Tweak)) (Outcome (Context C D T Y))
  make_factory jobs_of lib ctx (panicked err) = pure (panicked err)
  make_factory jobs_of lib ctx (returned c) = do
    p ← alloc (
        new_shared_informer_factory_with_options (jobs_of c) (lib.get_resync_period ctx.outer)
          (options_of lib ctx.outer))
    pure (returned (with_value factory_key (factory p) ctx))

  unfoldable pub with_informer_factory :
      (Versioned C D T → Client S JL Wt)
      → Scope Y
      → Context C D T Y
      → M (Memory (SharedInformerFactory K I (Client S JL Wt) Tweak)) (Outcome (Context C D T Y))
  unfolding new_shared_informer_factory_with_options get_client
  with_informer_factory jobs_of lib ctx = make_factory jobs_of lib ctx (get_client ctx)

  -- In the fake factory's package.
  unfoldable pub with_fake_informer_factory :
      (Versioned C D T → Client S JL Wt)
      → Scope Y
      → Context C D T Y
      → M (Memory (SharedInformerFactory K I (Client S JL Wt) Tweak)) (Outcome (Context C D T Y))
  unfolding new_shared_informer_factory_with_options get_fake_client
  with_fake_informer_factory jobs_of lib ctx =
      make_factory jobs_of lib ctx (fake_versioned (get_fake_client ctx))

module _ {S JL Wt K I X Ix : Type 0} ⦃e : EqType K⦄ (lib : Cache S JL Wt K I X Ix) where
  -- `Informer()` of a JobInformer whose factory stands at that address.
  unfoldable pub informer_at :
      ℕ × JobInformer → M (Memory (SharedInformerFactory K I (Client S JL Wt) Tweak)) I
  unfolding job_informer
  informer_at (p, f) m = let (i, f') = job_informer lib f (m.at p) in (i, store p f' m)

module _ {C D T Y S JL Wt K I X Ix : Type 0} ⦃e : EqType K⦄ (lib : Cache S JL Wt K I X Ix) where
  abbrev pub make_informer :
      Context C D T Y
      → Outcome ℕ
      → M
          (Memory (SharedInformerFactory K I (Client S JL Wt) Tweak))
          (Outcome (Context C D T Y × I))
  make_informer ctx (panicked err) m = (panicked err, m)
  make_informer ctx (returned p) m =
      let f = jobs (v1alpha1 (custom (m.at p))) in
      let (i, m') = informer_at lib (p, f) m in
      (returned (with_value informer_key (informer p f) ctx, i), m')

  unfoldable pub with_informer :
      Context C D T Y
      → M
          (Memory (SharedInformerFactory K I (Client S JL Wt) Tweak))
          (Outcome (Context C D T Y × I))
  unfolding informer_at get_factory
  with_informer ctx = make_informer ctx (get_factory ctx)

  -- In the fake informer's package, whose `fake.Get` is `factory.Get`.
  unfoldable pub with_fake_informer :
      Context C D T Y
      → M
          (Memory (SharedInformerFactory K I (Client S JL Wt) Tweak))
          (Outcome (Context C D T Y × I))
  unfolding informer_at get_factory
  with_fake_informer ctx = make_informer ctx (get_factory ctx)
