-- ===== src/Informers/Jobs.antt =====
-- pkg/client/informers/externalversions/job/v1alpha1/job.go, the interface.go files above it and
-- generic.go: the informer of Jobs, as the factory's callers get it. The factory itself is passed
-- along; `I` stands for shared informers, `X` for their indexers, `Ix` for index functions.
use test_concurrent_reconcil.Base.{
  ℕ, String, Bool, Option, none, some, [], ◌∷◌, if◌then◌else◌, EqType, ◌==◌, ◌&&◌, string_eq,
}
use test_concurrent_reconcil.Base.Maps.{Map}
use test_concurrent_reconcil.Kube.{Error, message, Returns, M}
use test_concurrent_reconcil.JobClient.Typed.{ListOptions}
use test_concurrent_reconcil.Informers.{SharedInformerFactory, informer_for}

-- `TweakListOptionsFunc`: what it leaves in the options that it is handed.
abbrev pub Tweak : Type 0
Tweak = ListOptions → ListOptions

-- `cache.ListWatch`, and the part of `JobInterface` that informers use.
pub record ListWatch (S JL Wt : Type 0) : Type 0 where
  pub list_func : ListOptions → M S (Returns JL)
  pub watch_func : ListOptions → M S (Returns Wt)

-- `versioned.Interface` as far as informers use it: the client of Jobs for each namespace.
abbrev pub Client : Type 0 → Type 0 → Type 0 → Type 0
Client S JL Wt = String → ListWatch S JL Wt

-- The cache package of client-go. Objects are given by their types.
pub record Cache (S JL Wt K I X Ix : Type 0) : Type 0 where
  pub new_shared_index_informer : ListWatch S JL Wt → K → ℕ → Map String Ix → I
  pub get_indexer : I → X
  pub namespace_index : String
  pub meta_namespace_index_func : Ix
  -- `reflect.TypeOf(&jobv1alpha1.Job{})`
  pub job_type : K

abbrev pub tweaked : Option Tweak → ListOptions → ListOptions
tweaked none options = options
tweaked (some tweak_list_options) options = tweak_list_options options

-- `jobInformer`, `version` and `group`: all but the factory.
pub record JobInformer : Type 0 where
  pub tweak_list_options : Option Tweak
  pub namespace : String

pub record Version : Type 0 where
  pub namespace : String
  pub tweak_list_options : Option Tweak

pub record Group : Type 0 where
  pub namespace : String
  pub tweak_list_options : Option Tweak

abbrev pub new_group : String → Option Tweak → Group
new_group namespace tweak = record { namespace = namespace; tweak_list_options = tweak }

abbrev pub new_version : String → Option Tweak → Version
new_version namespace tweak = record { namespace = namespace; tweak_list_options = tweak }

abbrev pub v1alpha1 : Group → Version
v1alpha1 g = new_version g.namespace g.tweak_list_options

abbrev pub jobs : Version → JobInformer
jobs v = record { namespace = v.namespace; tweak_list_options = v.tweak_list_options }

module _ {K I Cl : Type 0} where
  abbrev pub custom : SharedInformerFactory K I Cl Tweak → Group
  custom f = new_group f.namespace f.tweak_list_options

-- `schema.GroupVersionResource`
pub record Resource : Type 0 where
  pub group : String
  pub version : String
  pub resource : String

abbrev pub jobs_resource : Resource
jobs_resource = record { group = "custom.tekton.dev"; version = "v1alpha1"; resource = "jobs" }

abbrev pub same_resource : Resource → Resource → Bool
same_resource a b = a.group == b.group && a.version == b.version && a.resource == b.resource

-- `genericInformer`, with the resource's group and name
pub record GenericInformer (I : Type 0) : Type 0 where
  pub informer : I
  pub resource : String × String

module _ {S JL Wt K I X Ix : Type 0} (lib : Cache S JL Wt K I X Ix) where
  abbrev pub new_filtered_job_informer :
      Client S JL Wt → String → ℕ → Map String Ix → Option Tweak → I
  new_filtered_job_informer client namespace resync_period indexers tweak =
      lib.new_shared_index_informer
        (record {
          list_func = λ options. (client namespace).list_func (tweaked tweak options);
          watch_func = λ options. (client namespace).watch_func (tweaked tweak options);
        })
        lib.job_type resync_period indexers

  abbrev pub new_job_informer : Client S JL Wt → String → ℕ → Map String Ix → I
  new_job_informer client namespace resync_period indexers =
      new_filtered_job_informer client namespace resync_period indexers none

  abbrev pub default_informer : JobInformer → Client S JL Wt → ℕ → I
  default_informer f client resync_period =
      new_filtered_job_informer client f.namespace resync_period
        ((lib.namespace_index, lib.meta_namespace_index_func) ∷ []) f.tweak_list_options

  abbrev pub generic_lister : GenericInformer I → X × (String × String)
  generic_lister f = (lib.get_indexer f.informer, f.resource)

module _ {S JL Wt K I X Ix : Type 0} ⦃e : EqType K⦄ (lib : Cache S JL Wt K I X Ix) where
  unfoldable pub job_informer :
      JobInformer
      → SharedInformerFactory K I (Client S JL Wt) Tweak
      → I × SharedInformerFactory K I (Client S JL Wt) Tweak
  unfolding informer_for
  job_informer f factory = informer_for (default_informer lib f) lib.job_type factory

  -- `Lister`: the indexer that the new lister stands on.
  abbrev pub job_lister :
      JobInformer
      → SharedInformerFactory K I (Client S JL Wt) Tweak
      → X × SharedInformerFactory K I (Client S JL Wt) Tweak
  job_lister f factory = let (i, factory') = job_informer f factory in (lib.get_indexer i, factory')

  unfoldable pub for_resource :
      Resource
      → SharedInformerFactory K I (Client S JL Wt) Tweak
      → (Option (GenericInformer I) × Option Error)
        × SharedInformerFactory K I (Client S JL Wt) Tweak
  unfolding job_informer
  for_resource resource f =
      if same_resource resource jobs_resource
      then (let (i, f') = job_informer (jobs (v1alpha1 (custom f))) f in
          (
            (some (record { informer = i; resource = (resource.group, resource.resource) }), none),
            f',
          ))
      else ((none, some (message "no informer found for %v")), f)
