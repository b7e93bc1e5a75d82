-- ===== src/RunController/Rate.antt =====
-- How often a Run can be requested.
use mathlib.Core.Path.{subst}
use test_concurrent_reconcil.Base.{
  ℕ, suc, ◌+◌, ◌*◌, ◌≤◌, String, true, false, Option, none, some, ◌≡◌, sym, ◌∙◌, EqType, arith,
}
use test_concurrent_reconcil.Generated.Types.{Client, Library}
use test_concurrent_reconcil.Generated.Laws.{Documented}
use test_concurrent_reconcil.Generated.Stored.{HasNames}
use test_concurrent_reconcil.Generated.RunKind.{run_reconcile}
use test_concurrent_reconcil.RunReconciler.Types.{
  Run, RunSpec, RunStatus, Emit, RunWorld, second, Reconciler,
}
use test_concurrent_reconcil.RunReconciler.Invoke.{InvokeParams}
use test_concurrent_reconcil.RunReconciler.Throttle.{
  HasParams, IsDue, answer_time, answer_time-late,
}
use test_concurrent_reconcil.RunReconciler.Wanted.{waited, some-injective}
use test_concurrent_reconcil.RunController.{run_controller}
use test_concurrent_reconcil.RunController.Storing.{run_controller-stores}
use test_concurrent_reconcil.RunController.Laws.{whole_seconds, OnlyGrooms, IsListed, IsRunStore}
use test_concurrent_reconcil.RunController.Clock.{run_controller-clock}
use test_concurrent_reconcil.RunController.Resting.{reconciled}

module _ {S P C Cond T : Type 0} ⦃e : EqType (RunStatus C)⦄ (r : Reconciler S P C Cond)
    (lib : Library S (RunSpec P) (RunStatus C) (Emit Cond) T) (client : Client S (Run P C))
    (finalizer_name : String) (key : String) (names : String × String)
    (status_at : S → RunStatus C) where
  -- The start time that the API server stores.
  abbrev pub start_at : RunWorld S P C Cond → Option ℕ
  start_at w = (status_at w.server).start_time

  -- A Run of these names that is due in a world, which `Reconcile` of the key then requests: the
  -- cache has caught up with its start time, and `Reconcile` returns nil.
  pub record IsAnswered (run : Run P C) (v : RunWorld S P C Cond) : Type 0 where
    pub listed : IsListed lib key run v
    pub caught_up : run.status.start_time ≡ start_at v
    pub named : HasNames names run
    pub since : ℕ
    pub due : IsDue r (lib.pre_process_reconcile run) since v
    pub params : InvokeParams
    pub given : HasParams r run.spec.params params
    pub encoded :
        (r.tekton.encode_extra_fields "" (lib.pre_process_reconcile run).status.conditions).1 ≡ none
    pub succeeds : (run_reconcile (run_controller r lib client finalizer_name false) key v).0 ≡ none

  -- What can happen from a world on, with the number of requests that are answered: time passes;
  -- others write, but for the start time; the key is reconciled, and the start time that is stored
  -- stays as it is; the key is reconciled, and the Run is requested.
  pub data Answers (w : RunWorld S P C Cond) : ℕ → RunWorld S P C Cond → Type 0 where
    start : Answers w 0 w
    waits :
        {n : ℕ} {v : RunWorld S P C Cond} (d : ℕ)
        → Answers w n v
        → Answers w n (record v { time = v.time + d })
    others_write :
        {n : ℕ} {v : RunWorld S P C Cond} (s : S)
        → (status_at s).start_time ≡ start_at v
        → Answers w n v
        → Answers w n (record v { server = s })
    passes :
        {n : ℕ} {v : RunWorld S P C Cond}
        → start_at (reconciled r lib client finalizer_name key status_at v) ≡ start_at v
        → Answers w n v
        → Answers w n (reconciled r lib client finalizer_name key status_at v)
    answers :
        {n : ℕ} {v : RunWorld S P C Cond} (run : Run P C)
        → IsAnswered run v
        → Answers w n v
        → Answers w (suc n) (reconciled r lib client finalizer_name key status_at v)

  module _ (doc : Documented lib)
      (compared : (a b : RunStatus C)
        → lib.semantic_deep_equal a b ≡ true
        → a.start_time ≡ b.start_time)
      (grooms : OnlyGrooms lib) (stores : IsRunStore client names status_at) where
    named-IsRunStore :
        (run : Run P C) {v : RunWorld S P C Cond}
        → IsAnswered run v
        → IsRunStore client (run.meta.namespace, run.meta.name) status_at
    named-IsRunStore run a =
        subst (λ n. IsRunStore client n status_at) (λ i. (sym (a.named.0) i, sym (a.named.1) i))
          stores

    answered-stores :
        (run : Run P C) (v : RunWorld S P C Cond)
        → IsAnswered run v
        → let v' = reconciled r lib client finalizer_name key status_at v in
          (start_at v' ≡ some (whole_seconds (answer_time r v))) × (answer_time r v ≤ v'.time)
    answered-stores run v a =
        run_controller-stores r lib client finalizer_name doc compared grooms key run a.params v
          a.listed (waited a.since a.due) a.given a.encoded status_at (named-IsRunStore run a)
          a.succeeds

    answered-late :
        (run : Run P C) (v : RunWorld S P C Cond) (t : ℕ)
        → IsAnswered run v
        → start_at v ≡ some t
        → t + 7 * second ≤ answer_time r v
    answered-late run v t a stored = omega (
      arith,
      some-injective (sym a.due.started ∙ (grooms.pre run).same_start ∙ a.caught_up ∙ stored),
      answer_time-late r (lib.pre_process_reconcile run) a.since v a.due,
    )

    -- From a world in which the API server stores a start time in whole seconds that has passed,
    -- where the library does as it documents and compares statuses by their start times at least,
    -- the processing before and after changes a status besides its start time at most, and the API
    -- server stores what it accepts, of a start time the whole seconds: after `n` reconciliations
    -- that requested the Run, with the cache caught up, and returned nil, and whatever else
    -- happened that left the stored start time as it was, the stored start time is in whole seconds
    -- and has passed, and lies at least `7 * n` seconds after the first.
    pub Answers-rate :
        (t : ℕ) {w v : RunWorld S P C Cond} {n : ℕ}
        → start_at w ≡ some t
        → whole_seconds t ≡ t
        → t ≤ w.time
        → Answers w n v
        → (t' : ℕ) × (start_at v ≡ some t')
          × (whole_seconds t' ≡ t')
          × (t + n * (7 * second) ≤ t')
          × (t' ≤ v.time)
    Answers-rate t stored whole past start = (t, stored, whole, omega arith, past)
    Answers-rate t stored whole past (waits d a) =
        let (t', now, still, late, then_past) = Answers-rate t stored whole past a in
        (t', now, still, late, omega (arith, then_past))
    Answers-rate t stored whole past (others_write s same a) =
        let (t', now, still, late, then_past) = Answers-rate t stored whole past a in
        (t', same ∙ now, still, late, then_past)
    Answers-rate t stored whole past (passes {n} {v} same a) =
        let (t', now, still, late, then_past) = Answers-rate t stored whole past a in
        (
          t',
          same ∙ now,
          still,
          late,
          omega
              (arith, then_past, run_controller-clock r lib client finalizer_name false doc key v),
        )
    Answers-rate t stored whole past (answers {n} {v} run answered a) =
        let (t', now, still, late, then_past) = Answers-rate t stored whole past a in
        let (at_answer, time) = answered-stores run v answered in
        (
          whole_seconds (answer_time r v),
          at_answer,
          omega arith,
          omega (arith, late, still, answered-late run v t' answered now),
          omega (arith, time),
        )
