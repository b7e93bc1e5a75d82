-- ===== src/Examples/Clients.antt =====
-- The theorems on the clients of Jobs: at an indexer that holds nothing, at a list with a
-- timeout, and at a fake that holds names.
use test_concurrent_reconcil.Base.{
  String, true, false, none, some, List, [], ◌∷◌, ◌≡◌, refl, string_eq, arith, ◌==◌, nat_eq, ℕ,
}
use test_concurrent_reconcil.Generated.Types.{Library, ReconcilerImpl}
use test_concurrent_reconcil.Generated.Reconcile.{reconcile}
use test_concurrent_reconcil.Generated.State.{is_not_leader_nor_observer}
use test_concurrent_reconcil.Generated.Laws.{Documented, last}
use test_concurrent_reconcil.JobClient.Typed.{ListOptions, RestRequest}
use test_concurrent_reconcil.JobClient.Requests.{
  list_call, after_call, read_request, read_request-after_call,
}
use test_concurrent_reconcil.JobClient.Lister.{Indexer, get_namespace_job}
use test_concurrent_reconcil.JobClient.Absent.{reconcile-absent}
use test_concurrent_reconcil.JobClient.Fake.{JobList, FakeJobs}
use test_concurrent_reconcil.Examples.Kinds.{
  Server, Job, impl, library, job_with, world_with, list_sets-IsStringSets,
}

-- An indexer that holds nothing, and the reconciler over its lister.
abbrev nothing_cached : Indexer Server Job (Unit {0})
nothing_cached = record {
  get_by_key = λ key s. ((none, none), s);
  list_all = λ label s. (([], none), s);
  list_all_by_namespace = λ namespace label s. (([], none), s);
}

abbrev bare_library : Library Server (Unit {0}) ℕ (Unit {0}) (List String)
bare_library = record library { lister_get = get_namespace_job (job_with [] none) nothing_cached }

bare_library-Documented : Documented bare_library
bare_library-Documented = record {
  event_as-event = λ d. refl;
  is_not_found-not_found = λ group kind name. refl;
  semantic_refl = λ s. (nat_eq.equals_iff s s).1 refl;
  sets_laws = list_sets-IsStringSets;
  is_conflict = λ e. false;
  retries = λ f w. last refl;
}

abbrev bare_impl : ReconcilerImpl Server (Unit {0}) ℕ (Unit {0}) (List String)
bare_impl = record impl { library = bare_library }

reconcile-absent_example :
    ((reconcile bare_impl "j" (world_with true (job_with [] none))).0 ≡ none)
    × ((reconcile bare_impl "j" (world_with true (job_with [] none))).1.trace ≡ [])
unfolding is_not_leader_nor_observer
reconcile-absent_example =
    reconcile-absent bare_impl bare_library-Documented (job_with [] none) nothing_cached "j"
      "default" "j" (world_with true (job_with [] none)) (true, job_with [] none)
      (λ namespace name s. refl) refl refl refl

-- A list of Jobs that gives up after thirty seconds, for Jobs that are their names.
abbrev patient : ListOptions
patient = record {
  label_selector = "";
  field_selector = "";
  watch = false;
  timeout_seconds = some 30;
}

abbrev events : String
events = "added"

read_request-after_call_example :
    (q : RestRequest String (Unit {0})) × (after_call
        (λ job. job)
        "a"
        events
        events
        "default"
        (list_call patient)
        []
      ≡ q ∷ [])
    × (read_request (λ job. job) "default" q ≡ some (list_call patient))
read_request-after_call_example =
    read_request-after_call (λ job. job) "a" events events "default" (list_call patient) []
      (omega arith)

-- A fake that always lists the same names, of which the options pick those that are their label.
abbrev names : JobList String (Unit {0})
names = record { list_meta = tt; items = "a" ∷ "b" ∷ "a" ∷ [] }

abbrev fake_jobs : FakeJobs (Unit {0}) String (Unit {0}) String String
fake_jobs = record {
  fake = record {
    invokes = λ a s. ((some "a", none), s);
    invokes_list = λ a s. ((some names, none), s);
    invokes_watch = λ a s. ((events, none), s);
    label_of = λ opts. some opts.label_selector;
    everything = "a";
    matches = λ label job. label == job;
  };
  ns = "default";
}
