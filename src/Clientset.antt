-- ===== src/Clientset.antt =====
-- pkg/client/clientset/versioned/clientset.go and typed/job/v1alpha1/job_client.go: how the clients
-- are built from a configuration. `L` stands for rate limiters, `Q` for float32, `Se` for
-- serializers, `O` for the other fields of a configuration, `C` and `D` for REST and discovery
-- clients, `W` for all that building them may change.
pub mod Sharing
pub mod Fake
pub mod Jobs
use test_concurrent_reconcil.Base.{
  ℕ, ◌^◌, String, Bool, true, false, Option, none, some, if◌then◌else◌, leb, ◌||◌, ◌&&◌, not, ◌==◌,
  nat_eq, string_eq,
}
use test_concurrent_reconcil.Kube.{Error, message, Returns, M, pure, ◌>>=◌}

-- `rest.Config`. `burst` is an int, as its 64 bits.
pub record Config (L Q Se O : Type 0) : Type 0 where
  pub rate_limiter : Option L
  pub qps : Q
  pub burst : ℕ
  pub group_version : Option (String × String)
  pub api_path : String
  pub negotiated_serializer : Option Se
  pub user_agent : String
  pub others : O

-- A call returns, or panics with an error.
pub data Outcome (A : Type 0) : Type 0 where
  returned : A → Outcome A
  panicked : Error → Outcome A

-- What the code calls of client-go, and the serializer of its own scheme.
pub record ClientGo (W L Q Se O C D : Type 0) : Type 0 where
  pub is_positive : Q → Bool
  pub new_token_bucket_rate_limiter : Q → ℕ → M W L
  pub rest_client_for : Config L Q Se O → M W (C × Option Error)
  pub new_discovery_client_for_config : Config L Q Se O → M W (D × Option Error)
  pub new_discovery_client_for_config_or_die : Config L Q Se O → M W (Outcome D)
  pub new_discovery_client : C → D
  pub default_kubernetes_user_agent : String
  pub without_conversion : Se

pub record CustomV1alpha1Client (C : Type 0) : Type 0 where
  pub rest_client : C

pub record Clientset (C D : Type 0) : Type 0 where
  pub discovery_client : D
  pub custom_v1alpha1 : Option (CustomV1alpha1Client C)

module _ {C : Type 0} where
  -- `RESTClient`; a nil client has none.
  abbrev pub client_rest_client : Option (CustomV1alpha1Client C) → Option C
  client_rest_client none = none
  client_rest_client (some c) = some c.rest_client

module _ {C D : Type 0} where
  abbrev pub discovery : Option (Clientset C D) → Option D
  discovery none = none
  discovery (some c) = some c.discovery_client

abbrev pub burst_error : Error
burst_error =
    message
      "burst is required to be greater than 0 when RateLimiter is not set and QPS is set to greater than 0"

-- `burst <= 0` on a signed 64-bit integer
abbrev pub not_positive : ℕ → Bool
not_positive burst = burst == 0 || leb (2 ^ 63) burst

abbrev pub is_unset : {L : Type 0} → Option L → Bool
is_unset none = true
is_unset (some l) = false

-- `if err != nil { panic(err) }`
abbrev pub or_die : {A : Type 0} → A × Option Error → Outcome A
or_die (a, some err) = panicked err
or_die (a, none) = returned a

module _ {W L Q Se O C D : Type 0} (lib : ClientGo W L Q Se O C D) where
  -- Its error is always nil.
  abbrev pub set_config_defaults : Config L Q Se O → Config L Q Se O × Option Error
  set_config_defaults config = (
    record config {
      group_version = some ("custom.tekton.dev", "v1alpha1");
      api_path = "/apis";
      negotiated_serializer = some lib.without_conversion;
      user_agent =
          if config.user_agent == "" then lib.default_kubernetes_user_agent else config.user_agent;
    },
    none,
  )

  abbrev pub custom_client : C × Option Error → Option (CustomV1alpha1Client C) × Option Error
  custom_client (client, some err) = (none, some err)
  custom_client (client, none) = (some (record { rest_client = client }), none)

  abbrev pub with_defaults :
      Config L Q Se O × Option Error → M W (Option (CustomV1alpha1Client C) × Option Error)
  with_defaults (config, some err) = pure (none, some err)
  with_defaults (config, none) = do made ← lib.rest_client_for config; pure (custom_client made)

  unfoldable pub client_for_config :
      Config L Q Se O → M W (Option (CustomV1alpha1Client C) × Option Error)
  client_for_config c = with_defaults (set_config_defaults c)

  abbrev pub client_for_config_or_die :
      Config L Q Se O → M W (Outcome (Option (CustomV1alpha1Client C)))
  client_for_config_or_die c = do made ← client_for_config c; pure (or_die made)

  abbrev pub set_discovery :
      Option (CustomV1alpha1Client C) → D × Option Error → Option (Clientset C D) × Option Error
  set_discovery custom (client, some err) = (none, some err)
  set_discovery custom (client, none) =
      (some (record { discovery_client = client; custom_v1alpha1 = custom }), none)

  abbrev pub set_custom :
      Config L Q Se O
      → Option (CustomV1alpha1Client C) × Option Error
      → M W (Option (Clientset C D) × Option Error)
  set_custom c (custom, some err) = pure (none, some err)
  set_custom c (custom, none) = do
    made ← lib.new_discovery_client_for_config c
    pure (set_discovery custom made)

  -- From the copy of the configuration on.
  abbrev pub both_clients : Config L Q Se O → M W (Option (Clientset C D) × Option Error)
  both_clients c = do custom ← client_for_config c; set_custom c custom

  unfoldable pub new_for_config : Config L Q Se O → M W (Option (Clientset C D) × Option Error)
  unfolding client_for_config
  new_for_config c =
      if is_unset c.rate_limiter && lib.is_positive c.qps
      then (if not_positive c.burst then pure (none, some burst_error) else (do
        limiter ← lib.new_token_bucket_rate_limiter c.qps c.burst
        both_clients (record c { rate_limiter = some limiter })))
      else both_clients c

  abbrev pub die_or_discovery :
      Option (CustomV1alpha1Client C) → Outcome D → Outcome (Clientset C D)
  die_or_discovery custom (panicked err) = panicked err
  die_or_discovery custom (returned client) =
      returned (record { discovery_client = client; custom_v1alpha1 = custom })

  abbrev pub die_or_custom :
      Config L Q Se O → Outcome (Option (CustomV1alpha1Client C)) → M W (Outcome (Clientset C D))
  die_or_custom c (panicked err) = pure (panicked err)
  die_or_custom c (returned custom) = do
    made ← lib.new_discovery_client_for_config_or_die c
    pure (die_or_discovery custom made)

  unfoldable pub new_for_config_or_die : Config L Q Se O → M W (Outcome (Clientset C D))
  unfolding client_for_config
  new_for_config_or_die c = do custom ← client_for_config_or_die c; die_or_custom c custom

  unfoldable pub new_clientset : C → Clientset C D
  new_clientset c = record {
    discovery_client = lib.new_discovery_client c;
    custom_v1alpha1 = some (record { rest_client = c });
  }
