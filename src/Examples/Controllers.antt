-- ===== src/Examples/Controllers.antt =====
-- The theorems on the whole controller of Runs, at a Run that was started one second after the
-- clock's zero.
use test_concurrent_reconcil.Base.{
  ◌+◌, ◌*◌, Bool, true, false, none, some, List, [], ◌∷◌, ◌++◌, ◌≡◌, ap, ◌↔◌, nat_eq, refl,
  string_eq, arith, ◌&&◌, ◌==◌, EqType, String,
}
use test_concurrent_reconcil.Base.Maps.{same_value, same_value_iff}
use test_concurrent_reconcil.Generated.Types.{Client, Library}
use test_concurrent_reconcil.Generated.Laws.{Documented, last}
use test_concurrent_reconcil.Generated.RunKind.{run_reconcile}
use test_concurrent_reconcil.RunReconciler.Invoke.{InvokeParams}
use test_concurrent_reconcil.RunReconciler.Kind.{refers_to_job}
use test_concurrent_reconcil.RunReconciler.Throttle.{IsDue}
use test_concurrent_reconcil.RunReconciler.Types.{RunSpec, RunStatus, Emit, second}
use test_concurrent_reconcil.RunController.{run_controller}
use test_concurrent_reconcil.RunController.Skipping.{
  IsSkipped, early, IsFound, skipped_result, skipped_trace, run_controller-skips,
}
use test_concurrent_reconcil.Examples.Kinds.{list_sets, list_sets-IsStringSets, event_in, is_absent}
use test_concurrent_reconcil.Examples.Runs.{
  Params, Conditions, TestRun, TestWorld, reconciler, all_params, run_with, world_at,
}

abbrev pub same_texts : List String → List String → Bool
same_texts [] [] = true
same_texts (a ∷ l) (b ∷ bs) = a == b && same_texts l bs
same_texts _ _ = false

pub same_texts_iff : (l m : List String) → (same_texts l m ≡ true) ↔ (l ≡ m)
same_texts_iff [] [] = ground arith
same_texts_iff [] (b ∷ m) = ground arith
same_texts_iff (a ∷ l) [] = ground arith
same_texts_iff (a ∷ l) (b ∷ m) = ground (arith, string_eq.equals_iff a b, same_texts_iff l m)

abbrev pub same_status : RunStatus Conditions → RunStatus Conditions → Bool
same_status a b = same_value a.start_time b.start_time && same_texts a.conditions b.conditions

pub same_status_iff : (a b : RunStatus Conditions) → (same_status a b ≡ true) ↔ (a ≡ b)
same_status_iff a b =
    ground
      (arith, same_value_iff a.start_time b.start_time, same_texts_iff a.conditions b.conditions)

instance abbrev pub status_eq : EqType (RunStatus Conditions)
status_eq = record { equals = same_status; equals_iff = same_status_iff }

-- Every instance leads, and the cache has the server's Run under every name.
abbrev pub library :
    Library TestRun (RunSpec Params) (RunStatus Conditions) (Emit String) (List String)
library = record {
  split_meta_namespace_key = λ key. some ("default", key);
  is_leader_for = λ names s. (true, s);
  lister_get = λ namespace name s. ((s, none), s);
  is_not_found = is_absent;
  event_as = event_in;
  semantic_deep_equal = same_status;
  pre_process_reconcile = λ o. o;
  post_process_reconcile = λ o old. o;
  retry_update_conflicts = λ f. f 0;
  marshal = λ j. ("{}", none);
  sets = list_sets;
}

pub library-Documented : Documented library
library-Documented = record {
  event_as-event = λ d. refl;
  is_not_found-not_found = λ group kind name. refl;
  semantic_refl = λ s. (same_status_iff s s).1 refl;
  sets_laws = list_sets-IsStringSets;
  is_conflict = λ e. false;
  retries = λ f w. last refl;
}

abbrev client : Client TestRun TestRun
client = record {
  get = λ namespace name s. ((s, none), s);
  update_status = λ o s. ((o, none), s);
  patch = λ namespace name bytes s. ((s, none), s);
}

abbrev pub recent : TestRun
recent = run_with none 50 all_params (some second)

abbrev now : TestWorld
now = world_at (2 * second) recent

recent-IsFound : IsFound library "r" recent now
recent-IsFound = record {
  names = ("default", "r");
  valid = refl;
  leads = refl;
  listed = refl;
  not_deleted = refl;
  before = refl;
  after = refl;
}

recent-IsSkipped : IsSkipped reconciler recent (2 * second + 1 + 1)
recent-IsSkipped = early second refl (omega arith)

run_controller-skips_example :
    let (res, w) = run_reconcile (run_controller reconciler library client "runs" false) "r" now in
    (res ≡ skipped_result reconciler recent recent-IsSkipped)
    × (w.trace ≡ skipped_trace reconciler recent recent-IsSkipped ++ [])
run_controller-skips_example =
    run_controller-skips reconciler library client "runs" false library-Documented refl "r" recent
      now recent-IsFound recent-IsSkipped

-- The same Run, five seconds later.
abbrev pub later : TestWorld
later = world_at (6 * second) recent

abbrev pub given_params : InvokeParams
given_params = record { project = "p"; space = "s"; job = "j"; token = "t" }

pub compares_start_times :
    (a b : RunStatus Conditions)
    → library.semantic_deep_equal a b ≡ true
    → a.start_time ≡ b.start_time
compares_start_times a b same = ap (λ s. s.start_time) ((same_status_iff a b).0 same)

pub recent-IsDue : IsDue reconciler recent second later
unfolding refers_to_job
recent-IsDue = record {
  started = refl;
  known_started = refl;
  waited = omega arith;
  refers = refl;
  not_done = refl;
  not_cancelled = refl;
}
