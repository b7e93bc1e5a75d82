-- ===== src/Examples/Runs.antt =====
-- A concrete Tekton and concrete Runs. A Run's conditions are the reasons it was marked as failed
-- with, the newest first; the server holds the cached Run.
use test_concurrent_reconcil.Base.{
  ℕ, String, Bool, true, false, Option, none, some, List, [], ◌∷◌, refl, string_eq,
}
use test_concurrent_reconcil.Base.Maps.{Map, lookup}
use test_concurrent_reconcil.Kube.{wrap}
use test_concurrent_reconcil.RunReconciler.Types.{
  RunStatus, Run, RunWorld, Tekton, Reconciler, Documented,
}

abbrev pub Params : Type 0
Params = Map String String

abbrev pub Conditions : Type 0
Conditions = List String

abbrev pub TestRun : Type 0
TestRun = Run Params Conditions

abbrev pub TestWorld : Type 0
TestWorld = RunWorld TestRun Params Conditions String

abbrev pub has_time : Option ℕ → Bool
has_time none = false
has_time (some t) = true

abbrev pub is_nonempty : Conditions → Bool
is_nonempty [] = false
is_nonempty (c ∷ l) = true

abbrev pub newest : Conditions → Option String
newest [] = none
newest (c ∷ l) = some c

abbrev pub start_now : ℕ → RunStatus Conditions → RunStatus Conditions
start_now now status = record status { start_time = some now }

abbrev pub tekton : Tekton Params Conditions String
tekton = record {
  get_param = λ params name. lookup name params;
  has_started = has_time;
  is_done = is_nonempty;
  is_cancelled = λ spec. false;
  initialize_conditions = start_now;
  get_condition = newest;
  mark_run_failed = λ reason format args conditions. reason ∷ conditions;
  encode_extra_fields = λ id conditions. (conditions, none);
  error_text = λ e. "an error";
  append = λ merr e. wrap "and" e;
  group_version_string = λ version. version.0;
}

pub tekton-Documented : Documented tekton
tekton-Documented = record {
  has_started-nil = refl;
  initialize_conditions-start_time = λ now s. (now, refl);
}

abbrev pub reconciler : Reconciler TestRun Params Conditions String
reconciler = record {
  tekton = tekton;
  run_lister_get = λ namespace name s. ((s, none), s);
  patch_run = λ namespace name bytes s. ((s, none), s);
  marshal = λ j. ("{}", none);
}

abbrev pub all_params : Params
all_params = ("project_id", "p") ∷ ("space_id", "s") ∷ ("job_id", "j") ∷ ("token", "t") ∷ []

abbrev pub run_with : Option (Map String String) → ℕ → Params → Option ℕ → TestRun
run_with labels creation params started = record {
  meta = record {
    name = "r";
    namespace = "default";
    labels = labels;
    annotations = none;
    finalizers = [];
    resource_version = "7";
    creation_timestamp = creation;
    deletion_timestamp = none;
  };
  spec = record {
    ref = some (record { api_version = "custom.tekton.dev"; kind = "Job" });
    params = params;
  };
  status = record { start_time = started; conditions = [] };
}

abbrev pub world_at : ℕ → TestRun → TestWorld
world_at time cached = record {
  server = cached;
  time = time;
  readings = 0;
  drift = λ k. 1;
  trace = [];
}
