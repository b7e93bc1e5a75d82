-- ===== src/Generated/Options.antt =====
-- What the options of `NewImpl` and of `NewReconciler` set, of the two kinds.
use test_concurrent_reconcil.Base.{
  String, Bool, true, false, Option, none, some, List, [], ◌∷◌, ◌≡◌, ◌≢◌, ◌*◌, ◌^◌, ◌⊎◌,
}
use test_concurrent_reconcil.Generated.Controller.{Options, Settings, Impl}

-- The implementation for a queue of that name: each item is put back after five seconds.
abbrev pub impl_for : String → Impl
impl_for queue_name = record {
  work_queue_name = queue_name;
  rate_limiter = record { failures = []; fixed_delay = 5 * 10 ^ 9 };
}

-- A name that is given stands; the default stands where none is.
abbrev pub Names : String → String → String → Type 0
Names default given result = ((given ≡ "") × (result ≡ default)) ⊎ ((given ≢ "") × (result ≡ given))

module _ {Cfg : Type 0} where
  -- The fields that the options set, over the default name of the finalizer.
  pub record IsSetBy (o : Options Cfg) (finalizer : String) (rec : Settings Cfg) : Type 0 where
    pub finalizer_name : Names finalizer o.finalizer_name rec.finalizer_name
    pub config_store : rec.config_store ≡ o.config_store
    pub skip_status_updates : rec.skip_status_updates ≡ o.skip_status_updates

  abbrev pub defaults : String → Settings Cfg
  defaults finalizer = record {
    config_store = none;
    finalizer_name = finalizer;
    skip_status_updates = false;
  }

  -- What `NewImpl` makes of the functions that it is given.
  abbrev pub IsMade :
      String
      → String
      → String
      → List (Impl → Options Cfg)
      → Option ((Settings Cfg × String) × Impl)
      → Type 0
  IsMade finalizer agent queue [] made = made ≡ some ((defaults finalizer, agent), impl_for queue)
  IsMade finalizer agent queue (fn ∷ []) made =
      (rec : Settings Cfg) × (name : String) × (made ≡ some ((rec, name), impl_for queue))
      × IsSetBy (fn (impl_for queue)) finalizer rec
      × Names agent (fn (impl_for queue)).agent_name name
  IsMade finalizer agent queue (_ ∷ _ ∷ _) made = made ≡ none

  -- What `NewReconciler` makes of the options that it is given.
  abbrev pub IsBuilt : String → Bool → List (Options Cfg) → Option (Settings Cfg) → Type 0
  IsBuilt finalizer true options built = built ≡ none
  IsBuilt finalizer false [] built = built ≡ some (defaults finalizer)
  IsBuilt finalizer false (o ∷ []) built =
      (rec : Settings Cfg) × (built ≡ some rec) × IsSetBy o finalizer rec
  IsBuilt finalizer false (_ ∷ _ ∷ _) built = built ≡ none
