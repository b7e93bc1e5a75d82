-- ===== src/Scheme/Kinds.antt =====
-- Which kinds the schemes recognize once the packages are initialized.
use test_concurrent_reconcil.Base.{
  String, Bool, true, false, none, List, [], ◌∷◌, ◌==◌, ◌&&◌, ◌||◌, string_eq, contains, ◌≡◌, ◌↔◌,
  ◌⊎◌, refl, arith, ap, ◌∙◌,
}
use test_concurrent_reconcil.Clientset.{returned}
use test_concurrent_reconcil.JobApi.Methods.{
  GroupVersionKind, add_known_types, group_name, with_kind, get_group_version_kind,
}
use test_concurrent_reconcil.Scheme.{
  Registering, Schemes, job_add_to_scheme, add_to_scheme, same_kind_iff, add_to_client_scheme,
  init_scheme, fake_init_scheme,
}

-- apimachinery as documented. `is_meta` tells the kinds of metav1 that `AddToGroupVersion` adds to
-- each group, such as `ListOptions`.
pub record Documented {Sc : Type 0} (lib : Schemes Sc) : Type 0 where
  pub is_meta : String → Bool
  pub recognizes-new_scheme : (k : GroupVersionKind) → lib.recognizes lib.new_scheme k ≡ false
  pub recognizes-add_known_types :
      (group version : String) (names : List String) (s : Sc) (k : GroupVersionKind)
      → lib.recognizes (lib.types.add_known_types (group, version) names s) k ≡ (
          (k.group == group && (k.version == version && contains names k.kind))
          || lib.recognizes s k)
  pub recognizes-add_to_group_version :
      (version : String × String) (s : Sc) (k : GroupVersionKind)
      → is_meta k.kind ≡ false
      → lib.recognizes (lib.types.add_to_group_version version s) k ≡ lib.recognizes s k
  pub add_to_scheme-nil : (s : Sc) → lib.add_to_scheme [] s ≡ (s, none)
  pub add_to_scheme-cons :
      (f : Registering Sc) (fs : List (Registering Sc)) (s : Sc)
      → (f s).1 ≡ none
      → lib.add_to_scheme (f ∷ fs) s ≡ lib.add_to_scheme fs (f s).0
  pub must-none : lib.must none ≡ returned tt

module _ {Sc : Type 0} (lib : Schemes Sc) (doc : Documented lib) where
  -- A builder with one function that succeeds does what the function does.
  add_to_scheme-one :
      (f : Registering Sc) (s : Sc)
      → (f s).1 ≡ none
      → lib.add_to_scheme (f ∷ []) s ≡ ((f s).0, none)
  add_to_scheme-one f s ok = doc.add_to_scheme-cons f [] s ok ∙ doc.add_to_scheme-nil (f s).0

  abbrev with_jobs : Sc
  with_jobs = add_known_types lib.types (lib.types.add_to_group_version ("", "v1") lib.new_scheme)

  job_add_to_scheme_lem : (s : Sc) → job_add_to_scheme lib s ≡ (add_known_types lib.types s, none)
  job_add_to_scheme_lem s = add_to_scheme-one _ s refl

  add_to_scheme_lem : (s : Sc) → add_to_scheme lib s ≡ (add_known_types lib.types s, none)
  add_to_scheme_lem s =
      add_to_scheme-one (job_add_to_scheme lib) s (ap (λ q. q.1) (job_add_to_scheme_lem s))
      ∙ ap (λ q. (q.0, none)) (job_add_to_scheme_lem s)

  init_scheme_lem : init_scheme lib ≡ returned with_jobs
  unfolding init_scheme
  init_scheme_lem =
      rw (
        add_to_scheme_lem (lib.types.add_to_group_version ("", "v1") lib.new_scheme),
        doc.must-none,
      )

  abbrev is_job_kind : GroupVersionKind → Bool
  is_job_kind k =
      k.group == group_name && (k.version == "v1alpha1" && contains ("Job" ∷ "JobList" ∷ []) k.kind)

  is_job_kind_iff :
      (k : GroupVersionKind)
      → (is_job_kind k ≡ true) ↔ ((k ≡ get_group_version_kind) ⊎ (k ≡ with_kind "JobList"))
  is_job_kind_iff k = ground (
    arith,
    string_eq.equals_iff k.group group_name,
    string_eq.equals_iff k.version "v1alpha1",
    string_eq.equals_iff "Job" k.kind,
    string_eq.equals_iff "JobList" k.kind,
    same_kind_iff k (with_kind "Job"),
    same_kind_iff k (with_kind "JobList"),
  )

  module _ (k : GroupVersionKind) (other : doc.is_meta k.kind ≡ false) where
    recognizes-jobs :
        (s : Sc)
        → lib.recognizes (add_known_types lib.types s) k ≡ (is_job_kind k || lib.recognizes s k)
    recognizes-jobs s =
        let names = "Job" ∷ "JobList" ∷ [] in
        let jobs = lib.types.add_known_types (group_name, "v1alpha1") names s in
        doc.recognizes-add_to_group_version (group_name, "v1alpha1") jobs k other
        ∙ doc.recognizes-add_known_types group_name "v1alpha1" names s k

    recognizes-new :
        lib.recognizes (lib.types.add_to_group_version ("", "v1") lib.new_scheme) k ≡ false
    recognizes-new =
        doc.recognizes-add_to_group_version ("", "v1") lib.new_scheme k other
        ∙ doc.recognizes-new_scheme k

    with_jobs-recognizes :
        (lib.recognizes with_jobs k ≡ true)
        ↔ ((k ≡ get_group_version_kind) ⊎ (k ≡ with_kind "JobList"))
    with_jobs-recognizes =
        let s = lib.types.add_to_group_version ("", "v1") lib.new_scheme in
        ground (arith, recognizes-jobs s, recognizes-new, is_job_kind_iff k)

    -- client-go's scheme, by which events refer to objects, gains the two kinds and keeps its own.
    add_to_client_scheme-recognizes :
        (s : Sc)
        → (lib.recognizes (add_to_client_scheme lib s) k ≡ true) ↔ (
            ((k ≡ get_group_version_kind) ⊎ (k ≡ with_kind "JobList"))
            ⊎ (lib.recognizes s k ≡ true))
    add_to_client_scheme-recognizes s =
        rw (add_to_scheme_lem s, add_to_client_scheme)
          (ground (arith, recognizes-jobs s, is_job_kind_iff k))

  -- If apimachinery does as it documents: neither `init` panics, and of the kinds that are not
  -- metav1's the schemes of the clientset and of its fake then recognize the one that
  -- `GetGroupVersionKind` gives a Job and that of its list, and no other.
  pub init_scheme-recognizes :
      (k : GroupVersionKind)
      → doc.is_meta k.kind ≡ false
      → (s : Sc) × (init_scheme lib ≡ returned s)
        × (fake_init_scheme lib ≡ returned s)
        × ((lib.recognizes s k ≡ true) ↔ ((k ≡ get_group_version_kind) ⊎ (k ≡ with_kind "JobList")))
  unfolding fake_init_scheme init_scheme
  init_scheme-recognizes k other =
      (with_jobs, init_scheme_lem, init_scheme_lem, with_jobs-recognizes k other)
