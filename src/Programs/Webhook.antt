-- ===== src/Programs/Webhook.antt =====
-- cmd/webhook/main.go. `Ctx` stands for contexts, `Crd` for the objects of a resource's type, `Cb`
-- for callbacks, `Cn` for constructors of configurations, `Im` for `*controller.Impl`, `W` for all
-- that the program acts on.
use Prim.Native.String.{◌++◌}
use test_concurrent_reconcil.Base.{ℕ, String, Bool, true, List, [], ◌∷◌}
use test_concurrent_reconcil.Base.Maps.{Map}
use test_concurrent_reconcil.Kube.{M, ◌>>=◌}
use test_concurrent_reconcil.JobApi.Methods.{GroupVersionKind}

-- `webhook.Options`
pub record Options : Type 0 where
  pub service_name : String
  pub port : ℕ
  pub secret_name : String

-- What the three admission controllers are made from: the name of the webhook and the path that it
-- serves; for resources also the types, the function on contexts, and whether unknown fields are
-- disallowed.
pub record Resources (Ctx Crd : Type 0) : Type 0 where
  pub name : String
  pub path : String
  pub handlers : Map GroupVersionKind Crd
  pub with_context : Ctx → Ctx
  pub disallow_unknown_fields : Bool

pub record Configmaps (Cn : Type 0) : Type 0 where
  pub name : String
  pub path : String
  pub constructors : Map String Cn

-- The packages of knative.dev/pkg and of its sample controller that the program calls. The second
-- argument of a constructor, the watcher of configmaps, is used by none.
pub record Knative (W Ctx Crd Cb Cn Im : Type 0) : Type 0 where
  pub system_namespace : String
  pub samples_version : String × String
  pub addressable_service : Crd
  pub new_defaulting : Ctx → Resources Ctx Crd → Im
  pub new_validation : Ctx → Resources Ctx Crd → Map GroupVersionKind Cb → Im
  pub new_config_validation : Ctx → Configmaps Cn → Im
  pub new_certificates : Ctx → Im
  pub logging_config_map_name : String
  pub logging_config : Cn
  pub metrics_config_map_name : String
  pub metrics_config : Cn
  pub new_context : M W Ctx
  pub with_options : Ctx → Options → Ctx
  pub webhook_main_with_context : Ctx → String → List (Ctx → Im) → M W (Unit {0})

module _ {W Ctx Crd Cb Cn Im : Type 0} (lib : Knative W Ctx Crd Cb Cn Im) where
  abbrev pub types : Map GroupVersionKind Crd
  types =
      (
        record {
          group = lib.samples_version.0;
          version = lib.samples_version.1;
          kind = "AddressableService";
        },
        lib.addressable_service,
      )
      ∷ []

  abbrev pub callbacks : Map GroupVersionKind Cb
  callbacks = []

  abbrev pub webhook_name : String → String
  webhook_name prefix = prefix ++ ".webhook." ++ lib.system_namespace ++ ".knative.dev"

  unfoldable pub new_defaulting_admission_controller : Ctx → Im
  new_defaulting_admission_controller ctx = lib.new_defaulting ctx (record {
    name = webhook_name "defaulting";
    path = "/defaulting";
    handlers = types;
    with_context = λ ctx. ctx;
    disallow_unknown_fields = true;
  })

  unfoldable pub new_validation_admission_controller : Ctx → Im
  new_validation_admission_controller ctx =
      lib.new_validation ctx
        (record {
          name = webhook_name "validation";
          path = "/resource-validation";
          handlers = types;
          with_context = λ ctx. ctx;
          disallow_unknown_fields = true;
        })
        callbacks

  unfoldable pub new_config_validation_controller : Ctx → Im
  new_config_validation_controller ctx = lib.new_config_validation ctx (record {
    name = webhook_name "config";
    path = "/config-validation";
    constructors =
        (lib.logging_config_map_name, lib.logging_config)
        ∷ (lib.metrics_config_map_name, lib.metrics_config)
        ∷ [];
  })

  -- The constructors that `main` passes on.
  abbrev pub constructors : List (Ctx → Im)
  constructors =
      lib.new_certificates ∷ new_defaulting_admission_controller
      ∷ new_validation_admission_controller ∷ new_config_validation_controller ∷ []

  unfoldable pub main : M W (Unit {0})
  main = do
    ctx ← lib.new_context
    lib.webhook_main_with_context
        (lib.with_options ctx
          (record { service_name = "webhook"; port = 8443; secret_name = "webhook-certs" }))
        "webhook" constructors
