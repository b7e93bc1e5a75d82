-- ===== src/JobClient/Typed.antt =====
-- typed/job/v1alpha1/job.go: the request that each method of `jobs` builds. `J` stands for Job, `L`
-- for the list of Jobs, `O` for the options of the methods other than list options.
use test_concurrent_reconcil.Base.{
  ℕ, ◌*◌, ◌%◌, ◌^◌, String, Bool, true, Option, none, some, List, [], ◌∷◌,
}
use test_concurrent_reconcil.Kube.{Error, Returns, M}

-- `v1.ListOptions` as far as the code reads or sets it. `timeout_seconds` is an int64, as its 64
-- bits.
pub record ListOptions : Type 0 where
  pub label_selector : String
  pub field_selector : String
  pub watch : Bool
  pub timeout_seconds : Option ℕ

pub data Verb : Type 0 where
  get_verb : Verb
  post_verb : Verb
  put_verb : Verb
  delete_verb : Verb
  -- with the patch's type
  patch_verb : String → Verb

pub data QueryParams (O : Type 0) : Type 0 where
  no_params : QueryParams O
  options : O → QueryParams O
  list_options : ListOptions → QueryParams O

pub data Body (J O : Type 0) : Type 0 where
  no_body : Body J O
  job_body : J → Body J O
  options_body : O → Body J O
  bytes_body : String → Body J O

-- What the chain of builder calls on `rest.Interface` sets.
pub record RestRequest (J O : Type 0) : Type 0 where
  pub verb : Verb
  pub namespace : String
  pub resource : String
  pub name : Option String
  pub sub_resource : List String
  pub versioned_params : QueryParams O
  pub timeout : ℕ
  pub body : Body J O

-- `rest.Interface`: how a request is done, and its answer decoded into a Job, into a list, for its
-- error alone, or watched.
pub record Rest (S J L W O : Type 0) : Type 0 where
  pub into_job : RestRequest J O → M S (Returns J)
  pub into_list : RestRequest J O → M S (Returns L)
  pub error : RestRequest J O → M S (Option Error)
  pub watching : RestRequest J O → M S (Returns W)

-- `jobs`
pub record Jobs (S J L W O : Type 0) : Type 0 where
  pub client : Rest S J L W O
  pub ns : String

-- `time.Duration(*opts.TimeoutSeconds) * time.Second`, which wraps at 64 bits.
unfoldable pub timeout_of : Option ℕ → ℕ
timeout_of none = 0
timeout_of (some seconds) = seconds * 10 ^ 9 % 2 ^ 64

module _ {J O : Type 0} where
  -- A request on Jobs of the namespace, with nothing else set.
  abbrev pub on_jobs : Verb → String → RestRequest J O
  on_jobs verb ns = record {
    verb = verb;
    namespace = ns;
    resource = "jobs";
    name = none;
    sub_resource = [];
    versioned_params = no_params;
    timeout = 0;
    body = no_body;
  }

module _ {S J L W O : Type 0} (job_name : J → String) where
  abbrev pub get : Jobs S J L W O → String → O → M S (Returns J)
  get c name opts =
      c.client.into_job
        (record (on_jobs get_verb c.ns) { name = some name; versioned_params = options opts })

  abbrev pub list : Jobs S J L W O → ListOptions → M S (Returns L)
  list c opts = c.client.into_list (record (on_jobs get_verb c.ns) {
    versioned_params = list_options opts;
    timeout = timeout_of opts.timeout_seconds;
  })

  abbrev pub watch : Jobs S J L W O → ListOptions → M S (Returns W)
  watch c opts = c.client.watching (record (on_jobs get_verb c.ns) {
    versioned_params = list_options (record opts { watch = true });
    timeout = timeout_of opts.timeout_seconds;
  })

  abbrev pub create : Jobs S J L W O → J → O → M S (Returns J)
  create c job opts =
      c.client.into_job
        (record (on_jobs post_verb c.ns) { versioned_params = options opts; body = job_body job })

  abbrev pub update : Jobs S J L W O → J → O → M S (Returns J)
  update c job opts = c.client.into_job (record (on_jobs put_verb c.ns) {
    name = some (job_name job);
    versioned_params = options opts;
    body = job_body job;
  })

  abbrev pub update_job_status : Jobs S J L W O → J → O → M S (Returns J)
  update_job_status c job opts = c.client.into_job (record (on_jobs put_verb c.ns) {
    name = some (job_name job);
    sub_resource = "status" ∷ [];
    versioned_params = options opts;
    body = job_body job;
  })

  abbrev pub delete_job : Jobs S J L W O → String → O → M S (Option Error)
  delete_job c name opts =
      c.client.error
        (record (on_jobs delete_verb c.ns) { name = some name; body = options_body opts })

  abbrev pub delete_collection : Jobs S J L W O → O → ListOptions → M S (Option Error)
  delete_collection c opts list_opts = c.client.error (record (on_jobs delete_verb c.ns) {
    versioned_params = list_options list_opts;
    timeout = timeout_of list_opts.timeout_seconds;
    body = options_body opts;
  })

  abbrev pub patch_job :
      Jobs S J L W O → String → String → String → O → List String → M S (Returns J)
  patch_job c name pt bytes opts subresources =
      c.client.into_job (record (on_jobs (patch_verb pt) c.ns) {
        name = some name;
        sub_resource = subresources;
        versioned_params = options opts;
        body = bytes_body bytes;
      })
