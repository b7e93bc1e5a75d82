-- ===== src/Informers.antt =====
-- pkg/client/informers/externalversions/factory.go: the shared informer factory. `K` stands for
-- types of objects, `I` for informers, `Cl` for the clientset, `Tw` for the functions that tweak
-- list options. Each method holds the factory's lock from its first to its last statement.
pub mod Once
pub mod Jobs
pub mod Shared
use test_concurrent_reconcil.Base.{
  ℕ, String, Bool, true, false, Option, none, some, List, [], ◌∷◌, if◌then◌else◌, EqType, ◌==◌,
}
use test_concurrent_reconcil.Base.Maps.{Map, lookup, insert}
use test_concurrent_reconcil.Kube.{M, pure, ◌>>=◌}

pub record SharedInformerFactory (K I Cl Tw : Type 0) : Type 0 where
  pub client : Cl
  pub namespace : String
  pub tweak_list_options : Option Tw
  pub default_resync : ℕ
  pub custom_resync : Map K ℕ
  pub informers : Map K I
  pub started_informers : Map K Bool

module _ {K I Cl Tw : Type 0} where
  abbrev pub with_tweak_list_options :
      Option Tw → SharedInformerFactory K I Cl Tw → SharedInformerFactory K I Cl Tw
  with_tweak_list_options tweak f = record f { tweak_list_options = tweak }

  abbrev pub with_namespace :
      String → SharedInformerFactory K I Cl Tw → SharedInformerFactory K I Cl Tw
  with_namespace namespace f = record f { namespace = namespace }

  abbrev pub apply_all :
      List (SharedInformerFactory K I Cl Tw → SharedInformerFactory K I Cl Tw)
      → SharedInformerFactory K I Cl Tw
      → SharedInformerFactory K I Cl Tw
  apply_all [] f = f
  apply_all (opt ∷ opts) f = apply_all opts (opt f)

  unfoldable pub new_shared_informer_factory_with_options :
      Cl
      → ℕ
      → List (SharedInformerFactory K I Cl Tw → SharedInformerFactory K I Cl Tw)
      → SharedInformerFactory K I Cl Tw
  new_shared_informer_factory_with_options client default_resync opts = apply_all opts (record {
    client = client;
    namespace = "";
    tweak_list_options = none;
    default_resync = default_resync;
    custom_resync = [];
    informers = [];
    started_informers = [];
  })

  unfoldable pub new_filtered_shared_informer_factory :
      Cl → ℕ → String → Option Tw → SharedInformerFactory K I Cl Tw
  unfolding new_shared_informer_factory_with_options
  new_filtered_shared_informer_factory client default_resync namespace tweak =
      new_shared_informer_factory_with_options client default_resync
        (with_namespace namespace ∷ with_tweak_list_options tweak ∷ [])

-- Reading a key that the map lacks gives false.
abbrev pub or_false : Option Bool → Bool
or_false none = false
or_false (some b) = b

abbrev pub or_default : ℕ → Option ℕ → ℕ
or_default default none = default
or_default default (some period) = period

module _ {K I Cl Tw : Type 0} ⦃e : EqType K⦄ where
  -- The configuration in the order in which the range visits it, each object as its type.
  abbrev pub with_custom_resync_config :
      List (K × ℕ) → SharedInformerFactory K I Cl Tw → SharedInformerFactory K I Cl Tw
  with_custom_resync_config [] f = f
  with_custom_resync_config ((k, v) ∷ config) f =
      with_custom_resync_config config (record f { custom_resync = insert k v f.custom_resync })

  abbrev pub informer_or_new :
      (Cl → ℕ → I)
      → K
      → Option I
      → SharedInformerFactory K I Cl Tw
      → I × SharedInformerFactory K I Cl Tw
  informer_or_new new_func informer_type (some informer) f = (informer, f)
  informer_or_new new_func informer_type none f =
      let period : ℕ = or_default f.default_resync (lookup informer_type f.custom_resync) in
      let informer = new_func f.client period in
      (informer, record f { informers = insert informer_type informer f.informers })

  unfoldable pub informer_for :
      (Cl → ℕ → I) → K → SharedInformerFactory K I Cl Tw → I × SharedInformerFactory K I Cl Tw
  informer_for new_func informer_type f =
      informer_or_new new_func informer_type (lookup informer_type f.informers) f

module _ {K I : Type 0} ⦃e : EqType K⦄ where
  -- A round of the loop of `Start`: which types are marked as started, and the informers that
  -- `go informer.Run(stopCh)` has set running, the newest first.
  unfoldable pub start_one : K × I → Map K Bool × List (K × I) → Map K Bool × List (K × I)
  start_one (k, informer) (started, running) =
      if or_false (lookup k started)
      then (started, running)
      else (insert k true started, (k, informer) ∷ running)

  unfoldable pub start_all : Map K I → Map K Bool × List (K × I) → Map K Bool × List (K × I)
  unfolding start_one
  start_all [] s = s
  start_all (entry ∷ rest) s = start_all rest (start_one entry s)

  -- The map of informers that `WaitForCacheSync` waits for, as the loop adds to it.
  unfoldable pub started_of : Map K Bool → Map K I → Map K I → Map K I
  started_of started [] informers = informers
  started_of started ((k, informer) ∷ rest) informers =
      started_of started rest
        (if or_false (lookup k started) then insert k informer informers else informers)

  -- The second loop of `WaitForCacheSync`: `wait` stands for the cache package's wait for one
  -- informer.
  abbrev pub wait_all : {W : Type 0} → (I → M W Bool) → Map K I → Map K Bool → M W (Map K Bool)
  wait_all wait [] res = pure res
  wait_all wait ((k, informer) ∷ informers) res = do
    synced ← wait informer
    wait_all wait informers (insert k synced res)

module _ {K I Cl Tw : Type 0} ⦃e : EqType K⦄ where
  -- `Start`, with the informers that were set running before.
  unfoldable pub start_informers :
      SharedInformerFactory K I Cl Tw × List (K × I)
      → SharedInformerFactory K I Cl Tw × List (K × I)
  unfolding start_all
  start_informers (f, running) =
      let (started, running') = start_all f.informers (f.started_informers, running) in
      (record f { started_informers = started }, running')

  unfoldable pub wait_for_cache_sync :
      {W : Type 0} → (I → M W Bool) → SharedInformerFactory K I Cl Tw → M W (Map K Bool)
  unfolding started_of
  wait_for_cache_sync wait f = wait_all wait (started_of f.started_informers f.informers []) []
