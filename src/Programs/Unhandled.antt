-- ===== src/Programs/Unhandled.antt =====
-- What the webhook does with the types of Jobs.
use test_concurrent_reconcil.Base.{
  Bool, true, false, List, [], ◌∷◌, ◌==◌, ◌||◌, string_eq, ◌≡◌, ◌≢◌, ◌⊎◌, inl, inr, sym, Bool-cases,
  arith, ap, ◌∙◌,
}
use test_concurrent_reconcil.Base.Maps.{Map, lookup}
use test_concurrent_reconcil.Clientset.{returned}
use test_concurrent_reconcil.Generated.State.{is_some}
use test_concurrent_reconcil.JobApi.Methods.{
  GroupVersionKind, group_name, with_kind, get_group_version_kind,
}
use test_concurrent_reconcil.Scheme.{Schemes, kind_eq, same_kind, same_kind_iff, init_scheme}
use test_concurrent_reconcil.Scheme.Kinds.{init_scheme-recognizes}
use test_concurrent_reconcil.Scheme.Kinds
use test_concurrent_reconcil.Programs.Webhook.{
  Resources, Configmaps, Knative, types, new_defaulting_admission_controller,
  new_validation_admission_controller, new_config_validation_controller, constructors,
}

abbrev config_map_kind : GroupVersionKind
config_map_kind = record { group = ""; version = "v1"; kind = "ConfigMap" }

-- knative.dev/pkg as documented: `handles` tells whether a controller has the API server send it
-- the objects of a kind. That is so for the kinds that it is given, and for configmaps.
pub record Documented {W Ctx Crd Cb Cn Im : Type 0} (lib : Knative W Ctx Crd Cb Cn Im)
    : Type 0 where
  pub handles : Im → GroupVersionKind → Bool
  pub handles-new_defaulting :
      (ctx : Ctx) (args : Resources Ctx Crd) (k : GroupVersionKind)
      → handles (lib.new_defaulting ctx args) k ≡ is_some (lookup k args.handlers)
  pub handles-new_validation :
      (ctx : Ctx) (args : Resources Ctx Crd) (callbacks : Map GroupVersionKind Cb)
      (k : GroupVersionKind)
      → handles (lib.new_validation ctx args callbacks) k
        ≡ (is_some (lookup k args.handlers) || is_some (lookup k callbacks))
  pub handles-new_config_validation :
      (ctx : Ctx) (args : Configmaps Cn) (k : GroupVersionKind)
      → handles (lib.new_config_validation ctx args) k ≡ (config_map_kind == k)
  pub handles-new_certificates :
      (ctx : Ctx) (k : GroupVersionKind) → handles (lib.new_certificates ctx) k ≡ false

returned-injective : {A : Type 0} {a b : A} → returned a ≡ returned b → a ≡ b
returned-injective p = cc

kinds_group :
    (k : GroupVersionKind)
    → (k ≡ get_group_version_kind) ⊎ (k ≡ with_kind "JobList")
    → k.group ≡ group_name
kinds_group k (inl p) = ap (λ g. g.group) p
kinds_group k (inr p) = ap (λ g. g.group) p

module _ {W Ctx Crd Cb Cn Im : Type 0} (lib : Knative W Ctx Crd Cb Cn Im) (doc : Documented lib)
    (ctx : Ctx) where
  -- Some controller that is made by these constructors handles the kind.
  abbrev pub handled_by : List (Ctx → Im) → GroupVersionKind → Bool
  handled_by [] k = false
  handled_by (c ∷ l) k = doc.handles (c ctx) k || handled_by l k

  abbrev sample_kind : GroupVersionKind
  sample_kind = record {
    group = lib.samples_version.0;
    version = lib.samples_version.1;
    kind = "AddressableService";
  }

  abbrev is_sample : GroupVersionKind → Bool
  is_sample k = is_some (lookup k (types lib))

  is_sample→eq : (k : GroupVersionKind) → is_sample k ≡ true → sample_kind ≡ k
  unfolding lookup
  is_sample→eq k h = ground (arith, same_kind_iff sample_kind k)

  handles-defaulting :
      (k : GroupVersionKind)
      → doc.handles (new_defaulting_admission_controller lib ctx) k ≡ is_sample k
  unfolding new_defaulting_admission_controller
  handles-defaulting k = doc.handles-new_defaulting ctx _ k

  handles-validation :
      (k : GroupVersionKind)
      → doc.handles (new_validation_admission_controller lib ctx) k ≡ (is_sample k || false)
  unfolding new_validation_admission_controller lookup
  handles-validation k = doc.handles-new_validation ctx _ [] k

  handles-config_validation :
      (k : GroupVersionKind)
      → doc.handles (new_config_validation_controller lib ctx) k ≡ same_kind config_map_kind k
  unfolding new_config_validation_controller
  handles-config_validation k = doc.handles-new_config_validation ctx _ k

  -- The webhook handles at most the sample's kind and configmaps.
  handled_by-constructors :
      (k : GroupVersionKind)
      → handled_by (constructors lib) k ≡ true
      → (sample_kind ≡ k) ⊎ (config_map_kind ≡ k)
  handled_by-constructors k h = ground (
    arith,
    doc.handles-new_certificates ctx k,
    handles-defaulting k,
    handles-validation k,
    handles-config_validation k,
    is_sample→eq k,
    same_kind_iff config_map_kind k,
  )

  not-handled :
      (k : GroupVersionKind)
      → lib.samples_version.0 ≢ group_name
      → k.group ≡ group_name
      → handled_by (constructors lib) k ≡ false
  not-handled k other is_job = elim (Bool-cases (handled_by (constructors lib) k)) [
    | inr unhandled ↦ unhandled
    | inl handled ↦ elim (handled_by-constructors k handled) [
      | inl sample ↦ absurd (other (ap (λ g. g.group) sample ∙ is_job))
      | inr config ↦ cc ((string_eq.equals_iff "" group_name).1 (ap (λ g. g.group) config ∙ is_job))
    ]
  ]

  -- Where the group of the sample controller is another than that of Jobs, and apimachinery and
  -- knative.dev/pkg do as they document: no controller that the webhook starts handles a kind,
  -- other than metav1's, that the scheme of the clientset recognizes. So objects of the kind Job are
  -- neither defaulted nor validated.
  pub webhook-ignores :
      {Sc : Type 0} (schemes : Schemes Sc) (documented : Kinds.Documented schemes)
      → lib.samples_version.0 ≢ group_name
      → (k : GroupVersionKind) → documented.is_meta k.kind ≡ false
      → (s : Sc) → init_scheme schemes ≡ returned s
      → schemes.recognizes s k ≡ true
      → handled_by (constructors lib) k ≡ false
  webhook-ignores schemes documented other k not_meta s start known =
      let (s', started, fake_started, recognized) =
        init_scheme-recognizes schemes documented k not_meta in
      let same : s' ≡ s = returned-injective (sym started ∙ start) in
      not-handled k other (kinds_group k (recognized.0 (rw same known)))
