-- ===== src/Examples/Clientsets.antt =====
-- The theorems on building clientsets, on the informer of Jobs and on the injection, where every
-- object of the libraries is a number.
use test_concurrent_reconcil.Base.{
  ℕ, suc, ◌≡◌, inr, refl, String, true, Option, none, some, [], ◌∷◌, ltb, string_eq,
}
use test_concurrent_reconcil.Kube.{Memory}
use test_concurrent_reconcil.Clientset.{Config, ClientGo, returned, new_for_config}
use test_concurrent_reconcil.Clientset.Sharing.{Documented, Result, new_for_config-Result}
use test_concurrent_reconcil.Informers.{SharedInformerFactory, new_filtered_shared_informer_factory}
use test_concurrent_reconcil.Informers.Jobs.{Cache, Client, Tweak}
use test_concurrent_reconcil.Injection.{
  Versioned, real, versioned, Context, Scope, client_key, get_client,
}
use test_concurrent_reconcil.Injection.RoundTrip.{set_up, Gives, set_up-Gives}

-- The world counts the rate limiters. A client is the limiter that it uses.
abbrev pub client_go : ClientGo ℕ ℕ ℕ (Unit {0}) (Unit {0}) (Option ℕ) (Option ℕ)
client_go = record {
  is_positive = λ qps. ltb 0 qps;
  new_token_bucket_rate_limiter = λ qps burst w. (w, suc w);
  rest_client_for = λ c w. ((c.rate_limiter, none), w);
  new_discovery_client_for_config = λ c w. ((c.rate_limiter, none), w);
  new_discovery_client_for_config_or_die = λ c w. (returned c.rate_limiter, w);
  new_discovery_client = λ c. c;
  default_kubernetes_user_agent = "agent";
  without_conversion = tt;
}

client_go-Documented : Documented client_go (λ c. c) (λ d. d)
client_go-Documented = record {
  rest = λ c l w limited fine. limited;
  discovery = λ c l w limited fine. limited;
}

abbrev pub config : Config ℕ ℕ (Unit {0}) (Unit {0})
config = record {
  rate_limiter = none;
  qps = 5;
  burst = 10;
  group_version = none;
  api_path = "";
  negotiated_serializer = none;
  user_agent = "";
  others = tt;
}

new_for_config-Result_example :
    Result client_go (λ c. c) (λ d. d) config 3 (new_for_config client_go config 3)
new_for_config-Result_example =
    new_for_config-Result client_go (λ c. c) (λ d. d) client_go-Documented config 3 (inr refl)

-- An informer is its resync period.
abbrev pub cache : Cache (Unit {0}) ℕ ℕ String ℕ ℕ (Unit {0})
cache = record {
  new_shared_index_informer = λ list_watch object_type period indexers. period;
  get_indexer = λ i. i;
  namespace_index = "namespace";
  meta_namespace_index_func = tt;
  job_type = "Job";
}

abbrev pub clients : Client (Unit {0}) ℕ ℕ
clients namespace = record {
  list_func = λ options s. ((0, none), s);
  watch_func = λ options s. ((0, none), s);
}

abbrev pub new_factory : SharedInformerFactory String ℕ (Client (Unit {0}) ℕ ℕ) Tweak
new_factory = new_filtered_shared_informer_factory clients 30 "default" none

abbrev clientset : Versioned (Option ℕ) (Option ℕ) ℕ
clientset =
    real (record {
      discovery_client = some 1;
      custom_v1alpha1 = some (record { rest_client = some 1 });
    })

-- The context is scoped to the namespace that it holds.
abbrev pub context : Context (Option ℕ) (Option ℕ) ℕ String
context = record { values = (client_key, versioned clientset) ∷ []; outer = "team" }

abbrev pub scope : Scope String
scope = record {
  has_namespace_scope = λ outer. true;
  get_namespace_scope = λ outer. outer;
  get_resync_period = λ outer. 30;
}

abbrev pub no_factories : Memory (SharedInformerFactory String ℕ (Client (Unit {0}) ℕ ℕ) Tweak)
no_factories = record { at = λ p. new_factory; size = 0 }

context-client : get_client context ≡ returned clientset
unfolding get_client
context-client = refl

set_up-Gives_example :
    (ctx : Context (Option ℕ) (Option ℕ) ℕ String) × (i : ℕ) × ((set_up
        (λ c. clients)
        scope
        cache
        context
        no_factories).0
      ≡ returned (ctx, i))
    × Gives
        (λ c. clients)
        scope
        cache
        clientset
        "team"
        0
        i
        ctx
        (set_up (λ c. clients) scope cache context no_factories).1
set_up-Gives_example =
    set_up-Gives (λ c. clients) scope cache clientset context no_factories context-client
