-- ===== src/Scheme.antt =====
-- pkg/client/clientset/versioned/scheme/register.go and fake/register.go there: the types of Jobs are
-- handed to the schemes by which the clientset and its fake encode and decode. `Sc` stands for
-- schemes.
pub mod Kinds
use test_concurrent_reconcil.Base.{
  String, Bool, Option, none, List, [], ◌∷◌, ◌==◌, ◌&&◌, string_eq, EqType, ◌≡◌, ◌↔◌, arith,
}
use test_concurrent_reconcil.Kube.{Error}
use test_concurrent_reconcil.Clientset.{Outcome, returned, panicked}
use test_concurrent_reconcil.JobApi.Methods.{SchemeLib, GroupVersionKind, add_known_types}

abbrev pub same_kind : GroupVersionKind → GroupVersionKind → Bool
same_kind a b = a.group == b.group && (a.version == b.version && a.kind == b.kind)

pub same_kind_iff : (a b : GroupVersionKind) → (same_kind a b ≡ Bool.true) ↔ (a ≡ b)
same_kind_iff a b = ground (
  arith,
  string_eq.equals_iff a.group b.group,
  string_eq.equals_iff a.version b.version,
  string_eq.equals_iff a.kind b.kind,
)

instance abbrev pub kind_eq : EqType GroupVersionKind
kind_eq = record { equals = same_kind; equals_iff = same_kind_iff }

-- A function that a `runtime.SchemeBuilder` holds changes the scheme, and may fail.
abbrev pub Registering : Type 0 → Type 0
Registering Sc = Sc → Sc × Option Error

-- The schemes of apimachinery: a new one, what is registered in one, `SchemeBuilder.AddToScheme`,
-- `Scheme.Recognizes`, and `utilruntime.Must`.
pub record Schemes (Sc : Type 0) : Type 0 where
  pub new_scheme : Sc
  pub types : SchemeLib Sc
  pub add_to_scheme : List (Registering Sc) → Registering Sc
  pub recognizes : Sc → GroupVersionKind → Bool
  pub must : Option Error → Outcome (Unit {0})

module _ {Sc : Type 0} (lib : Schemes Sc) where
  -- `AddToScheme` of pkg/apis/job/v1alpha1/register.go
  abbrev pub job_add_to_scheme : Registering Sc
  job_add_to_scheme = lib.add_to_scheme ((λ scheme. (add_known_types lib.types scheme, none)) ∷ [])

  abbrev pub local_scheme_builder : List (Registering Sc)
  local_scheme_builder = job_add_to_scheme ∷ []

  abbrev pub add_to_scheme : Registering Sc
  add_to_scheme = lib.add_to_scheme local_scheme_builder

  abbrev pub after_must : Sc → Outcome (Unit {0}) → Outcome Sc
  after_must scheme (returned done) = returned scheme
  after_must scheme (panicked err) = panicked err

  -- `init`: the scheme after it, or its panic.
  unfoldable pub init_scheme : Outcome Sc
  init_scheme =
      let (scheme, err) =
        add_to_scheme (lib.types.add_to_group_version ("", "v1") lib.new_scheme) in
      after_must scheme (lib.must err)

  abbrev pub fake_local_scheme_builder : List (Registering Sc)
  fake_local_scheme_builder = job_add_to_scheme ∷ []

  abbrev pub fake_add_to_scheme : Registering Sc
  fake_add_to_scheme = lib.add_to_scheme fake_local_scheme_builder

  -- `init` of the fake's scheme.
  unfoldable pub fake_init_scheme : Outcome Sc
  fake_init_scheme =
      let (scheme, err) =
        fake_add_to_scheme (lib.types.add_to_group_version ("", "v1") lib.new_scheme) in
      after_must scheme (lib.must err)

  -- `init` of pkg/client/injection/reconciler/job/v1alpha1/job/controller.go, on client-go's scheme;
  -- the error is dropped.
  abbrev pub add_to_client_scheme : Sc → Sc
  add_to_client_scheme scheme = (add_to_scheme scheme).0
