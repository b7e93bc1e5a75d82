-- ===== src/Generated/Controller.antt =====
-- controller.go of the two kinds, and `NewReconciler` of reconciler.go: how a reconciler and its
-- work queue are set up. The informers, the clients and the event recorder come from the context
-- and are left out.
use Prim.Native.String.{◌++◌}
use test_concurrent_reconcil.Base.{
  ◌*◌, ◌^◌, String, Bool, true, Option, none, some, List, [], ◌∷◌, if◌then◌else◌, ltb, ◌==◌,
  string_eq, length,
}
use test_concurrent_reconcil.Kube.{Error, Returns, Resource, M, pure, ◌>>=◌, ◌>>◌}
use test_concurrent_reconcil.RateLimiter.{
  ItemFixedDurationRateLimiter, new_fixed_duration_rate_limiter,
}

-- `controller.Options`; an empty string means that a name is not set.
pub record Options (Cfg : Type 0) : Type 0 where
  pub config_store : Option Cfg
  pub finalizer_name : String
  pub agent_name : String
  pub skip_status_updates : Bool

-- The fields of `reconcilerImpl` that options can set.
pub record Settings (Cfg : Type 0) : Type 0 where
  pub config_store : Option Cfg
  pub finalizer_name : String
  pub skip_status_updates : Bool

-- `controller.Impl` as far as it is set here: the queue's name and its rate limiter.
pub record Impl : Type 0 where
  pub work_queue_name : String
  pub rate_limiter : ItemFixedDurationRateLimiter (String × String)

abbrev pub or_given : {A : Type 0} → Option A → Option A → Option A
or_given old none = old
or_given old (some new) = some new

abbrev pub or_named : String → String → String
or_named old new = if new == "" then old else new

module _ {Cfg : Type 0} where
  -- A round of the loop over the options, without the agent's name.
  unfoldable pub set_options : Options Cfg → Settings Cfg → Settings Cfg
  set_options opts rec = record {
    config_store = or_given rec.config_store opts.config_store;
    finalizer_name = or_named rec.finalizer_name opts.finalizer_name;
    skip_status_updates = if opts.skip_status_updates then true else rec.skip_status_updates;
  }

  unfoldable pub set_all_options : List (Options Cfg) → Settings Cfg → Settings Cfg
  set_all_options [] rec = rec
  set_all_options (opts ∷ options) rec = set_all_options options (set_options opts rec)

  -- `NewReconciler`; `none` stands for `logger.Fatalf`, which ends the process.
  unfoldable pub new_reconciler : String → Bool → List (Options Cfg) → Option (Settings Cfg)
  unfolding set_all_options set_options
  new_reconciler default_finalizer_name is_leader_aware options =
      if ltb 1 (length options)
      then none
      else if is_leader_aware
      then none
      else some (
          set_all_options options (record {
            config_store = none;
            finalizer_name = default_finalizer_name;
            skip_status_updates = Bool.false;
          }))

  -- The loop of `NewImpl` over the options' functions, which sets the agent's name too.
  unfoldable pub set_from :
      List (Impl → Options Cfg) → Impl → Settings Cfg × String → Settings Cfg × String
  set_from [] impl rec = rec
  set_from (fn ∷ fns) impl (rec, agent_name) =
      set_from fns impl (set_options (fn impl) rec, or_named agent_name (fn impl).agent_name)

  -- `NewImpl`, from the default names and the queue's name: the fields of the reconciler, the
  -- agent's name and the implementation that is returned.
  unfoldable pub new_impl :
      String → String → String → List (Impl → Options Cfg) → Option ((Settings Cfg × String) × Impl)
  unfolding set_from set_options new_fixed_duration_rate_limiter
  new_impl default_finalizer_name default_agent_name queue_name options_fns =
      if ltb 1 (length options_fns)
      then none
      else (let impl : Impl = record {
        work_queue_name = queue_name;
        rate_limiter = new_fixed_duration_rate_limiter (5 * 10 ^ 9);
      } in
          let rec : Settings Cfg = record {
            config_store = none;
            finalizer_name = default_finalizer_name;
            skip_status_updates = Bool.false;
          } in
          some (set_from options_fns impl (rec, default_agent_name), impl))

module _ {W Spec Status : Type 0} where
  abbrev pub enqueue_all :
      (String × String → M W (Unit {0})) → List (Resource Spec Status) → M W (Unit {0})
  enqueue_all enq [] = pure tt
  enqueue_all enq (elt ∷ all) = enq (elt.meta.namespace, elt.meta.name) >> enqueue_all enq all

  -- `PromoteFunc`: an instance that becomes the leader puts every object into its queue.
  unfoldable pub promote :
      M W (Returns (List (Resource Spec Status)))
      → (String × String → M W (Unit {0}))
      → M W (Option Error)
  promote list_everything enq = do
    (all, err) ← list_everything
    elim err [ some failed ↦ pure (some failed) | none ↦ enqueue_all enq all >> pure none ]

-- `strings.ReplaceAll(s, "/", by)`
unfoldable pub replace_slashes : String → String → String
replace_slashes by String.[] = ""
replace_slashes by (String.◌∷◌ c s) =
    (if String.◌∷◌ c String.[] == "/" then by else String.◌∷◌ c String.[]) ++ replace_slashes by s
