-- ===== src/Injection.antt =====
-- pkg/client/injection: the clientset, the informer factory and the informer of Jobs in a
-- `context.Context`, each under a key of its own. The factories stand in memory, and the context
-- has their addresses.
pub mod Factories
pub mod RoundTrip
use Prim.Native.String.{◌++◌}
use test_concurrent_reconcil.Base.{
  ℕ, String, Bool, true, false, Option, none, some, List, [], ◌∷◌, if◌then◌else◌, EqType, ◌==◌,
  nat_eq,
}
use test_concurrent_reconcil.Base.Maps.{Map, lookup}
use test_concurrent_reconcil.Kube.{Error, message, M, Memory, alloc, store, pure, ◌>>=◌}
use test_concurrent_reconcil.Clientset.{
  Config, ClientGo, Clientset, Outcome, returned, panicked, new_for_config_or_die,
}
use test_concurrent_reconcil.Clientset.Fake.{ObjectTracker, FakeClientset, new_simple_clientset}
use test_concurrent_reconcil.Informers.{
  SharedInformerFactory, with_namespace, new_shared_informer_factory_with_options,
}
use test_concurrent_reconcil.Informers.Jobs.{
  Tweak, Cache, Client, JobInformer, job_informer, custom, v1alpha1, jobs,
}

-- The `Key` of each of the three packages.
pub data Key : Type 0 where
  client_key : Key
  factory_key : Key
  informer_key : Key

abbrev pub code : Key → ℕ
code client_key = 0
code factory_key = 1
code informer_key = 2

abbrev pub same_key : Key → Key → Bool
same_key a b = code a == code b

-- A `versioned.Interface`: the clientset, or its fake.
pub data Versioned (C D T : Type 0) : Type 0 where
  real : Clientset C D → Versioned C D T
  fake : FakeClientset T → Versioned C D T

pub data Value (C D T : Type 0) : Type 0 where
  versioned : Versioned C D T → Value C D T
  factory : ℕ → Value C D T
  -- with the address of its factory
  informer : ℕ → JobInformer → Value C D T

-- A context: the values under these keys, the newest first, and what other packages put there.
pub record Context (C D T Y : Type 0) : Type 0 where
  pub values : List (Key × Value C D T)
  pub outer : Y

-- knative.dev/pkg on a context: the namespace scope and the resync period.
pub record Scope (Y : Type 0) : Type 0 where
  pub has_namespace_scope : Y → Bool
  pub get_namespace_scope : Y → String
  pub get_resync_period : Y → ℕ

-- The text that `Panic` is called with, for the type that is not in the context.
abbrev pub unable_to_fetch : String → Error
unable_to_fetch type =
    message
      ("Unable to fetch github.com/vincentpli/concurrent-reconcile/" ++ type ++ " from context.")

abbrev pub wrong_type : Error
wrong_type = message "interface conversion"

module _ {C D T : Type 0} where
  abbrev pub find : Key → List (Key × Value C D T) → Option (Value C D T)
  find k [] = none
  find k ((j, v) ∷ rest) = if same_key j k then some v else find k rest

  abbrev pub as_versioned : Option (Value C D T) → Outcome (Versioned C D T)
  as_versioned none = panicked (unable_to_fetch "pkg/client/clientset/versioned.Interface")
  as_versioned (some (versioned c)) = returned c
  as_versioned (some _) = panicked wrong_type

  abbrev pub as_fake : Option (Value C D T) → Outcome (FakeClientset T)
  as_fake none = panicked (unable_to_fetch "pkg/client/clientset/versioned/fake.Clientset")
  as_fake (some (versioned (fake c))) = returned c
  as_fake (some _) = panicked wrong_type

  abbrev pub as_factory : Option (Value C D T) → Outcome ℕ
  as_factory none =
      panicked (unable_to_fetch "pkg/client/informers/externalversions.SharedInformerFactory")
  as_factory (some (factory p)) = returned p
  as_factory (some _) = panicked wrong_type

  abbrev pub as_informer : Option (Value C D T) → Outcome (ℕ × JobInformer)
  as_informer none =
      panicked (unable_to_fetch "pkg/client/informers/externalversions/job/v1alpha1.JobInformer")
  as_informer (some (informer p f)) = returned (p, f)
  as_informer (some _) = panicked wrong_type

module _ {C D T Y : Type 0} where
  abbrev pub value : Key → Context C D T Y → Option (Value C D T)
  value k ctx = find k ctx.values

  abbrev pub with_value : Key → Value C D T → Context C D T Y → Context C D T Y
  with_value k v ctx = record ctx { values = (k, v) ∷ ctx.values }

  unfoldable pub get_client : Context C D T Y → Outcome (Versioned C D T)
  get_client ctx = as_versioned (value client_key ctx)

  unfoldable pub get_fake_client : Context C D T Y → Outcome (FakeClientset T)
  get_fake_client ctx = as_fake (value client_key ctx)

  unfoldable pub get_factory : Context C D T Y → Outcome ℕ
  get_factory ctx = as_factory (value factory_key ctx)

  unfoldable pub get_informer : Context C D T Y → Outcome (ℕ × JobInformer)
  get_informer ctx = as_informer (value informer_key ctx)

module _ {C D T Y : Type 0} where
  abbrev pub store_client : Context C D T Y → Outcome (Clientset C D) → Outcome (Context C D T Y)
  store_client ctx (panicked err) = panicked err
  store_client ctx (returned cs) = returned (with_value client_key (versioned (real cs)) ctx)

  unfoldable pub with_client :
      {W L Q Se O : Type 0}
      → ClientGo W L Q Se O C D
      → Context C D T Y
      → Config L Q Se O
      → M W (Outcome (Context C D T Y))
  unfolding new_for_config_or_die
  with_client lib ctx cfg = do made ← new_for_config_or_die lib cfg; pure (store_client ctx made)

  abbrev pub store_fake :
      Context C D T Y → Outcome (FakeClientset T) → Outcome (Context C D T Y × FakeClientset T)
  store_fake ctx (panicked err) = panicked err
  store_fake ctx (returned cs) = returned (with_value client_key (versioned (fake cs)) ctx, cs)

  -- `With` of the fake client's package.
  unfoldable pub with_fake_client :
      {W Ob Wt : Type 0}
      → ObjectTracker W T Ob Wt
      → Context C D T Y
      → List Ob
      → M W (Outcome (Context C D T Y × FakeClientset T))
  with_fake_client lib ctx objects = do
    made ← new_simple_clientset lib objects
    pure (store_fake ctx made)
