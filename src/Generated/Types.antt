-- ===== src/Generated/Types.antt =====
-- The types of reconciler.go: what a reconciler is built from. What the code calls in other
-- packages is a field of `Library` or `Client`.
use test_concurrent_reconcil.Base.{ℕ, String, Bool, Option, List}
use test_concurrent_reconcil.Kube.{Error, ReconcilerEvent, Returns, Resource, World, M, Json}

-- The world as the reconciler of one kind sees it.
abbrev pub KindWorld : Type 0 → Type 0 → Type 0 → Type 0 → Type 0
KindWorld S Spec Status X = World S (Resource Spec Status) X

-- A method of a kind's reconciler changes the object that it is handed, and returns an event.
abbrev pub DoReconcile : Type 0 → Type 0 → Type 0
DoReconcile W R = R → M W (Returns R)

-- `Interface`, and the interfaces that a reconciler may implement besides: a type assertion to
-- one of them fails at `none`.
pub record Interface (W R : Type 0) : Type 0 where
  pub reconcile_kind : DoReconcile W R
  pub finalizer : Option (DoReconcile W R)
  pub read_only_interface : Option (DoReconcile W R)
  pub read_only_finalizer : Option (DoReconcile W R)

-- The typed client of a kind, for one namespace and name (or object) at a time.
pub record Client (S R : Type 0) : Type 0 where
  pub get : String → String → M S (Returns R)
  pub update_status : R → M S (Returns R)
  pub patch : String → String → String → M S (Returns R)

-- `sets.String` of k8s.io/apimachinery.
pub record StringSets (T : Type 0) : Type 0 where
  pub new_string : List String → T
  pub has : T → String → Bool
  pub insert : T → String → T
  pub delete : T → String → T
  pub list : T → List String

module _ (S Spec Status X T : Type 0) where
  -- Functions of client-go, apimachinery, knative.dev/pkg and encoding/json.
  pub record Library : Type 0 where
    pub split_meta_namespace_key : String → Option (String × String)
    pub is_leader_for : String × String → M S Bool
    pub lister_get : String → String → M S (Returns (Resource Spec Status))
    pub is_not_found : Error → Bool
    pub event_as : Error → Option ReconcilerEvent
    pub semantic_deep_equal : Status → Status → Bool
    pub pre_process_reconcile : Resource Spec Status → Resource Spec Status
    pub post_process_reconcile : Resource Spec Status → Resource Spec Status → Resource Spec Status
    pub retry_update_conflicts :
        (ℕ → M (KindWorld S Spec Status X) (Option Error))
        → M (KindWorld S Spec Status X) (Option Error)
    pub marshal : Json → Returns String
    pub sets : StringSets T

  -- `not_leader` is what `Reconcile` returns on its fast path out. `failure_object` is the object
  -- that a failed finalizer patch is reported on, of the cached one and the patch's answer;
  -- `updated_name` the name in the event of a patch that succeeds, of the object that the code was
  -- handed and the patch's answer.
  pub record Template : Type 0 where
    pub not_leader : String → Option Error
    pub failure_object : Resource Spec Status → Resource Spec Status → Resource Spec Status
    pub updated_name : Resource Spec Status → Resource Spec Status → String

  pub record ReconcilerImpl : Type 0 where
    pub template : Template
    pub library : Library
    pub client : Client S (Resource Spec Status)
    pub reconciler : Interface (KindWorld S Spec Status X) (Resource Spec Status)
    pub finalizer_name : String
    pub skip_status_updates : Bool
