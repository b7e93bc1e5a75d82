-- ===== src/Examples/Resting.antt =====
-- The theorems on what follows a request, over an API server that stores one Run. The request is
-- made six seconds after the clock's zero, and the key comes back twice within five seconds of its
-- answer.
use test_concurrent_reconcil.Base.{
  ℕ, String, ◌≤◌, ◌+◌, ◌*◌, false, Option, none, some, ◌∙◌, ◌≡◌, sym, ap, refl, arith,
}
use test_concurrent_reconcil.Kube.{writes}
use test_concurrent_reconcil.Base.Maps.{lookup}
use test_concurrent_reconcil.Generated.Types.{Client}
use test_concurrent_reconcil.Generated.RunKind.{run_reconcile}
use test_concurrent_reconcil.RunReconciler.Labels.{deep_equal}
use test_concurrent_reconcil.RunReconciler.Invoke
use test_concurrent_reconcil.RunReconciler.Invoke.{invoke, send_fake_request}
use test_concurrent_reconcil.RunReconciler.Kind.{
  refers_to_job, reconcile_kind, too_early, start, update_labels_and_annotations,
}
use test_concurrent_reconcil.Generated.State.{
  new_state, is_not_leader_nor_observer, reconcile_method_for,
}
use test_concurrent_reconcil.Generated.Finalizers.{set_finalizer_if_finalizer}
use test_concurrent_reconcil.Generated.Status.{update_status, status_attempt}
use test_concurrent_reconcil.Generated.Reconcile.{
  process, process_found, run_method, synchronize_status, report, finish, reconcile,
}
use test_concurrent_reconcil.RunReconciler.Types.{RunStatus, second}
use test_concurrent_reconcil.RunReconciler.Throttle.{second_reading, answer_time}
use test_concurrent_reconcil.RunReconciler.Wanted.{waited}
use test_concurrent_reconcil.RunController.{run_controller}
use test_concurrent_reconcil.RunController.Laws.{whole_seconds, OnlyGrooms, IsListed, IsRunStore}
use test_concurrent_reconcil.RunController.Storing.{run_controller-stores}
use test_concurrent_reconcil.RunController.Skipping.{requeued}
use test_concurrent_reconcil.RunController.Resting.{
  OnlyReads, reconciled, IsCaughtUp, Meanwhile, at_once, waits, retries, run_controller-rests,
}
use test_concurrent_reconcil.RunController.Rate.{
  IsAnswered, start as start_here, waits as waits_on, answers, Answers-rate,
}
use test_concurrent_reconcil.Examples.Runs.{
  Conditions, TestRun, TestWorld, reconciler, all_params, run_with,
}
use test_concurrent_reconcil.Examples.Controllers.{
  library, library-Documented, given_params, compares_start_times, recent, later, recent-IsDue,
  status_eq,
}

abbrev names : String × String
names = ("default", "r")

abbrev seconds_of : Option ℕ → Option ℕ
seconds_of none = none
seconds_of (some t) = some (whole_seconds t)

abbrev kept : RunStatus Conditions → RunStatus Conditions
kept s = record s { start_time = seconds_of s.start_time }

whole_seconds-twice : (t : ℕ) → whole_seconds (whole_seconds t) ≡ whole_seconds t
whole_seconds-twice t = omega arith

seconds_of-twice : (o : Option ℕ) → seconds_of (seconds_of o) ≡ seconds_of o
seconds_of-twice none = refl
seconds_of-twice (some t) = ap (λ n. some n) (whole_seconds-twice t)

kept-twice : (s : RunStatus Conditions) → kept (kept s) ≡ kept s
kept-twice s = ap (λ t. record s { start_time = t }) (seconds_of-twice s.start_time)

abbrev storing : Client TestRun TestRun
storing = record {
  get = λ namespace name s. (
    (
      record s {
        meta = record s.meta { namespace = namespace; name = name };
        status = kept s.status;
      },
      none,
    ),
    s,
  );
  update_status = λ o s. ((o, none), record s { status = kept o.status });
  patch = λ namespace name bytes s. ((s, none), s);
}

abbrev status_at : TestRun → RunStatus Conditions
status_at s = kept s.status

storing-IsRunStore : IsRunStore storing ("default", "r") status_at
storing-IsRunStore = record {
  kept = kept;
  store = record {
    accepted = λ o has s ok. kept-twice o.status;
    read_back = λ s o p. (
      (ap (λ q. q.0.meta.namespace) (sym p), ap (λ q. q.0.meta.name) (sym p)),
      ap (λ q. q.0.status) p,
      ap (λ q. kept q.0.status) (sym p) ∙ kept-twice s.status ∙ ap (λ q. q.0.status) p,
    );
  };
  keeps_seconds = λ s t p. ap seconds_of p;
}

library-OnlyGrooms : OnlyGrooms library
library-OnlyGrooms = record {
  pre = λ o. record { same_meta = refl; same_spec = refl; same_start = refl };
  post = λ o original. record { same_meta = refl; same_spec = refl; same_start = refl };
}

recent-IsListed : IsListed library "r" recent later
recent-IsListed = record {
  names = names;
  valid = refl;
  leads = refl;
  listed = refl;
  not_deleted = refl;
}

library-OnlyReads : OnlyReads library status_at
library-OnlyReads = record { leadership = λ names s. refl; cache = λ namespace name s. refl }

abbrev step : TestWorld → TestWorld
step = reconciled reconciler library storing "runs" "r" status_at

-- The Run with the second of the answer as its start time.
abbrev answered : TestRun
answered = run_with none 50 all_params (some (8 * second))

-- The world one second after the request, and that world once the key has come back.
abbrev wait : TestWorld → TestWorld
wait w = record w { time = w.time + second }

abbrev before_retry : TestWorld
before_retry = wait (step later)

abbrev after_retry : TestWorld
after_retry = step before_retry

request_and_retry :
    ((run_reconcile (run_controller reconciler library storing "runs" false) "r" later).0 ≡ none)
    × (before_retry.server ≡ answered)
    × (after_retry.server ≡ answered)
    × (second_reading before_retry ≡ 9 * second + 5)
    × (second_reading after_retry ≡ 9 * second + 8)
unfolding run_reconcile reconcile new_state process is_not_leader_nor_observer process_found
    reconcile_method_for run_method set_finalizer_if_finalizer reconcile_kind too_early
    refers_to_job start finish synchronize_status report update_status status_attempt
    Invoke.reconcile lookup invoke update_labels_and_annotations deep_equal
request_and_retry = (refl, refl, refl, refl, refl)

module _ (w : TestWorld) (cached : w.server ≡ answered) where
  answered-IsCaughtUp : IsCaughtUp reconciler library storing "runs" "r" status_at answered w
  answered-IsCaughtUp = (
    record {
      names = ("default", "r");
      valid = refl;
      leads = refl;
      listed = λ i. (cached i, none);
      not_deleted = refl;
      before = refl;
      after = refl;
    },
    ap (λ s. (status_at s).start_time) (sym cached),
  )

meanwhile :
    Meanwhile reconciler library storing "runs" "r" status_at
      (whole_seconds (answer_time reconciler later) + 5 * second)
      (step later)
      after_retry
meanwhile =
    retries answered (answered-IsCaughtUp before_retry request_and_retry.1)
      (omega (arith, request_and_retry.3)) (waits second at_once)

run_controller-rests_example :
    ((run_reconcile (run_controller reconciler library storing "runs" false) "r" after_retry).0
      ≡ some (requeued reconciler))
    × (writes (step after_retry).trace ≡ writes (step later).trace)
    × ((status_at (step after_retry).server).start_time ≡ some (8 * second))
unfolding lookup
run_controller-rests_example =
    run_controller-rests reconciler library storing "runs" "r" status_at library-Documented
      compares_start_times library-OnlyGrooms refl library-OnlyReads recent given_params later
      recent-IsListed (waited second recent-IsDue) (refl, refl, refl, refl) refl storing-IsRunStore
      request_and_retry.0 answered meanwhile (answered-IsCaughtUp after_retry request_and_retry.2)
      (omega (arith, request_and_retry.4))

run_controller-stores_example :
    ((status_at (step later).server).start_time ≡ some (8 * second))
    × (8 * second + 3 ≤ (step later).time)
unfolding lookup
run_controller-stores_example =
    run_controller-stores reconciler library storing "runs" library-Documented compares_start_times
      library-OnlyGrooms "r" recent given_params later recent-IsListed (waited second recent-IsDue)
      (refl, refl, refl, refl) refl status_at storing-IsRunStore request_and_retry.0

recent-IsAnswered : IsAnswered reconciler library storing "runs" "r" names status_at recent later
unfolding lookup
recent-IsAnswered = record {
  listed = recent-IsListed;
  caught_up = refl;
  named = (refl, refl);
  since = second;
  due = recent-IsDue;
  params = given_params;
  given = (refl, refl, refl, refl);
  encoded = refl;
  succeeds = request_and_retry.0;
}

Answers-rate_example :
    (t : ℕ) × ((status_at before_retry.server).start_time ≡ some t)
    × (whole_seconds t ≡ t)
    × (second + 1 * (7 * second) ≤ t)
    × (t ≤ before_retry.time)
Answers-rate_example =
    Answers-rate reconciler library storing "runs" "r" names status_at library-Documented
      compares_start_times library-OnlyGrooms storing-IsRunStore second refl refl (omega arith)
      (waits_on second (answers recent recent-IsAnswered start_here))
