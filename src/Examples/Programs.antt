-- ===== src/Examples/Programs.antt =====
-- The theorems on the schemes and on the webhook. A scheme is the list of its kinds, and so is a
-- controller of the webhook.
use test_concurrent_reconcil.Base.{
  String, Bool, true, false, Option, none, some, List, [], ◌∷◌, ◌++◌, map, ◌==◌, ◌&&◌, ◌||◌,
  string_eq, contains, ◌≡◌, ◌≢◌, ◌↔◌, ◌⊎◌, refl, arith, contains-append,
}
use test_concurrent_reconcil.Base.Maps.{Map, lookup}
use test_concurrent_reconcil.Kube.{Error}
use test_concurrent_reconcil.Clientset.{Outcome, returned, panicked}
use test_concurrent_reconcil.Generated.State.{is_some}
use test_concurrent_reconcil.JobApi.Methods.{
  GroupVersionKind, with_kind, get_group_version_kind, group_name,
}
use test_concurrent_reconcil.Scheme.{
  Registering, Schemes, same_kind, kind_eq, init_scheme, fake_init_scheme,
}
use test_concurrent_reconcil.Scheme.Kinds
use test_concurrent_reconcil.Scheme.Kinds.{init_scheme-recognizes}
use test_concurrent_reconcil.Programs.Webhook.{Knative, constructors}
use test_concurrent_reconcil.Programs.Unhandled
use test_concurrent_reconcil.Programs.Unhandled.{handled_by, webhook-ignores}

abbrev KnownKinds : Type 0
KnownKinds = List GroupVersionKind

abbrev kind_in : String × String → String → GroupVersionKind
kind_in (group, version) kind = record { group = group; version = version; kind = kind }

abbrev add_each : List (Registering KnownKinds) → Registering KnownKinds
add_each [] s = (s, none)
add_each (f ∷ fs) s = elim (f s).1 [ none ↦ add_each fs (f s).0 | some err ↦ ((f s).0, some err) ]

abbrev must : Option Error → Outcome (Unit {0})
must none = returned tt
must (some err) = panicked err

abbrev schemes : Schemes KnownKinds
schemes = record {
  new_scheme = [];
  types = record {
    add_known_types = λ version names s. map (kind_in version) names ++ s;
    add_to_group_version = λ version s. kind_in version "ListOptions" ∷ s;
  };
  add_to_scheme = add_each;
  recognizes = contains;
  must = must;
}

contains-kinds :
    (group version : String) (names : List String) (k : GroupVersionKind)
    → contains (map (kind_in (group, version)) names) k
      ≡ (k.group == group && (k.version == version && contains names k.kind))
contains-kinds group version [] k = ground arith
contains-kinds group version (name ∷ names) k = ground (
  arith,
  contains-kinds group version names k,
  string_eq.equals_iff group k.group,
  string_eq.equals_iff k.group group,
  string_eq.equals_iff version k.version,
  string_eq.equals_iff k.version version,
)

list_options-contains :
    (version : String × String) (s : KnownKinds) (k : GroupVersionKind)
    → ("ListOptions" == k.kind) ≡ false
    → contains (kind_in version "ListOptions" ∷ s) k ≡ contains s k
list_options-contains (group, version) s k other = ground arith

schemes-Documented : Kinds.Documented schemes
schemes-Documented = record {
  is_meta = λ kind. "ListOptions" == kind;
  recognizes-new_scheme = λ k. refl;
  recognizes-add_known_types = λ group version names s k. rw (
    contains-append (map (kind_in (group, version)) names) s k,
    contains-kinds group version names k,
  );
  recognizes-add_to_group_version = list_options-contains;
  add_to_scheme-nil = λ s. refl;
  add_to_scheme-cons = λ f fs s ok. rw ok;
  must-none = refl;
}

init_scheme-recognizes_example :
    (s : KnownKinds) × (init_scheme schemes ≡ returned s)
    × (fake_init_scheme schemes ≡ returned s)
    × ((contains s (with_kind "Job") ≡ true)
        ↔ ((with_kind "Job" ≡ get_group_version_kind) ⊎ (with_kind "Job" ≡ with_kind "JobList")))
unfolding schemes-Documented
init_scheme-recognizes_example =
    init_scheme-recognizes schemes schemes-Documented (with_kind "Job") refl

-- The kinds that `init` leaves.
abbrev initial : KnownKinds
initial =
    kind_in (group_name, "v1alpha1") "ListOptions"
    ∷ with_kind "Job"
    ∷ with_kind "JobList"
    ∷ kind_in ("", "v1") "ListOptions"
    ∷ []

starts : init_scheme schemes ≡ returned initial
unfolding init_scheme
starts = refl

abbrev keys : {V : Type 0} → Map GroupVersionKind V → KnownKinds
keys [] = []
keys ((k, v) ∷ m) = k ∷ keys m

abbrev knative :
    Knative (Unit {0}) (Unit {0}) (Unit {0}) (Unit {0}) (Unit {0}) (GroupVersionKind → Bool)
knative = record {
  system_namespace = "default";
  samples_version = ("samples.knative.dev", "v1alpha1");
  addressable_service = tt;
  new_defaulting = λ ctx args k. is_some (lookup k args.handlers);
  new_validation =
      λ ctx args callbacks k. is_some (lookup k args.handlers) || is_some (lookup k callbacks);
  new_config_validation = λ ctx args k. same_kind (kind_in ("", "v1") "ConfigMap") k;
  new_certificates = λ ctx k. false;
  logging_config_map_name = "config-logging";
  logging_config = tt;
  metrics_config_map_name = "config-observability";
  metrics_config = tt;
  new_context = λ w. (tt, w);
  with_options = λ ctx options. ctx;
  webhook_main_with_context = λ ctx name made w. (tt, w);
}

knative-Documented : Unhandled.Documented knative
knative-Documented = record {
  handles = λ c k. c k;
  handles-new_defaulting = λ ctx args k. refl;
  handles-new_validation = λ ctx args callbacks k. refl;
  handles-new_config_validation = λ ctx args k. refl;
  handles-new_certificates = λ ctx k. refl;
}

groups_differ : "samples.knative.dev" ≢ group_name
groups_differ p = cc ((string_eq.equals_iff "samples.knative.dev" group_name).1 p)

webhook-ignores_example :
    handled_by knative knative-Documented tt (constructors knative) (with_kind "Job") ≡ false
unfolding schemes-Documented
webhook-ignores_example =
    webhook-ignores knative knative-Documented tt schemes schemes-Documented groups_differ
      (with_kind "Job") refl initial starts refl
