-- ===== src/RunController/Resting.antt =====
-- The controller on the key of a Run that it has requested, until five seconds after the answer, or
-- up to a second less, since the start time is stored in whole seconds:
-- what happens in between, and what each further reconciliation does.
use test_concurrent_reconcil.Base.{
  ℕ, ◌+◌, ◌*◌, ◌<◌, String, true, false, none, some, ◌≡◌, refl, ap, ◌∙◌, EqType,
}
use test_concurrent_reconcil.Kube.{writes}
use test_concurrent_reconcil.Generated.Types.{Client, Library}
use test_concurrent_reconcil.Generated.Laws.{Documented}
use test_concurrent_reconcil.Generated.RunKind.{run_reconcile}
use test_concurrent_reconcil.RunReconciler.Types.{
  Run, RunSpec, RunStatus, Emit, RunWorld, second, Reconciler,
}
use test_concurrent_reconcil.RunReconciler.Invoke.{InvokeParams}
use test_concurrent_reconcil.RunReconciler.Throttle.{second_reading, HasParams, answer_time}
use test_concurrent_reconcil.RunReconciler.Wanted.{IsWanted, subject_of}
use test_concurrent_reconcil.RunController.{run_controller}
use test_concurrent_reconcil.RunController.Laws.{whole_seconds, OnlyGrooms, IsListed, IsRunStore}
use test_concurrent_reconcil.RunController.Skipping.{
  requeued, early, IsFound, run_controller-skipped,
}
use test_concurrent_reconcil.RunController.Storing.{run_controller-stores}

module _ {S P C Cond T : Type 0} where
  -- Asking for the leadership and reading the cache change nothing that the API server stores.
  pub record OnlyReads (lib : Library S (RunSpec P) (RunStatus C) (Emit Cond) T)
      (status_at : S → RunStatus C) : Type 0 where
    pub leadership :
        (names : String × String) (s : S) → status_at (lib.is_leader_for names s).1 ≡ status_at s
    pub cache :
        (namespace name : String) (s : S)
        → status_at (lib.lister_get namespace name s).1 ≡ status_at s

module _ {S P C Cond T : Type 0} ⦃e : EqType (RunStatus C)⦄ (r : Reconciler S P C Cond)
    (lib : Library S (RunSpec P) (RunStatus C) (Emit Cond) T) (client : Client S (Run P C))
    (finalizer_name : String) (key : String) (status_at : S → RunStatus C) where
  -- The world after `Reconcile` of the key.
  abbrev pub reconciled : RunWorld S P C Cond → RunWorld S P C Cond
  reconciled w = (run_reconcile (run_controller r lib client finalizer_name false) key w).1

  -- The lister has this Run under the key, which the processing before and after leaves as it is,
  -- and has seen the start time that the API server stores.
  abbrev pub IsCaughtUp : Run P C → RunWorld S P C Cond → Type 0
  IsCaughtUp run w =
      IsFound lib key run w × (run.status.start_time ≡ (status_at w.server).start_time)

  -- What happens before a deadline, in any order and as often as it likes: time passes; others
  -- write, but for the start time of the Run; the key is reconciled.
  pub data Meanwhile (deadline : ℕ) (w : RunWorld S P C Cond) : RunWorld S P C Cond → Type 0 where
    at_once : Meanwhile deadline w w
    waits :
        {v : RunWorld S P C Cond} (d : ℕ)
        → Meanwhile deadline w v
        → Meanwhile deadline w (record v { time = v.time + d })
    others_write :
        {v : RunWorld S P C Cond} (s : S)
        → (status_at s).start_time ≡ (status_at v.server).start_time
        → Meanwhile deadline w v
        → Meanwhile deadline w (record v { server = s })
    retries :
        {v : RunWorld S P C Cond} (run : Run P C)
        → IsCaughtUp run v
        → second_reading v < deadline
        → Meanwhile deadline w v
        → Meanwhile deadline w (reconciled v)

  module _ (doc : Documented lib) (no_event : lib.event_as (requeued r) ≡ none)
      (reads : OnlyReads lib status_at) (t : ℕ) where
    -- A reconciliation before the deadline returns the error, and neither writes nor changes what
    -- is stored.
    reconciled-early :
        (run : Run P C) (v : RunWorld S P C Cond)
        → IsCaughtUp run v
        → (status_at v.server).start_time ≡ some t
        → second_reading v < t + 5 * second
        → ((run_reconcile (run_controller r lib client finalizer_name false) key v).0
            ≡ some (requeued r))
          × (writes (reconciled v).trace ≡ writes v.trace)
          × (status_at (reconciled v).server ≡ status_at v.server)
    reconciled-early run v (found, seen) stored h =
        let (res, trace, server) =
          run_controller-skipped r lib client finalizer_name false doc no_event key run v found
            (early t (seen ∙ stored) h) in
        (
          res,
          ap writes trace,
          ap status_at server
              ∙ reads.cache found.names.0 found.names.1 (lib.is_leader_for found.names v.server).1
              ∙ reads.leadership found.names v.server,
        )

    Meanwhile-rests :
        {w v : RunWorld S P C Cond}
        → (status_at w.server).start_time ≡ some t
        → Meanwhile (t + 5 * second) w v
        → ((status_at v.server).start_time ≡ some t) × (writes v.trace ≡ writes w.trace)
    Meanwhile-rests stored at_once = (stored, refl)
    Meanwhile-rests stored (waits d m) = Meanwhile-rests stored m
    Meanwhile-rests stored (others_write s same m) =
        let (kept, quiet) = Meanwhile-rests stored m in (same ∙ kept, quiet)
    Meanwhile-rests stored (retries {v} run caught_up h m) =
        let (kept, quiet) = Meanwhile-rests stored m in
        let (res, trace, server) = reconciled-early run v caught_up kept h in
        (ap (λ s. s.start_time) server ∙ kept, trace ∙ quiet)

  -- The controller on the key of a Run that it leads for and that the lister has, not deleted, new
  -- or due, with all four parameters and an answer that can be encoded; where the library does as
  -- it documents and compares statuses by their start times at least, the processing before and
  -- after changes a status besides its start time at most, go-multierror's error is no reconciler
  -- event, and the API server stores what it accepts, of a start time the whole seconds. If
  -- `Reconcile` returns nil: until five seconds after the second in which the answer came, whatever
  -- happens in whatever order, if others leave the start time alone, and whenever the key is
  -- reconciled the cache has caught up with it and the processing finds nothing to change,
  -- `Reconcile` of the key returns the error of job.go, by which the key is retried; the controller
  -- has then written nothing since the request, and the start time that the API server stores is
  -- still the second in which the answer came.
  pub run_controller-rests :
      Documented lib
      → ((a b : RunStatus C) → lib.semantic_deep_equal a b ≡ true → a.start_time ≡ b.start_time)
      → OnlyGrooms lib
      → lib.event_as (requeued r) ≡ none
      → OnlyReads lib status_at
      → (run : Run P C) (params : InvokeParams) (w : RunWorld S P C Cond) → IsListed lib key run w
      → (wanted : IsWanted r (lib.pre_process_reconcile run) w) → HasParams r run.spec.params params
      → (r.tekton.encode_extra_fields "" (subject_of r wanted).run.status.conditions).1 ≡ none
      → IsRunStore client (run.meta.namespace, run.meta.name) status_at
      → (run_reconcile (run_controller r lib client finalizer_name false) key w).0 ≡ none
      → {v : RunWorld S P C Cond} (now : Run P C)
      → Meanwhile (whole_seconds (answer_time r w) + 5 * second) (reconciled w) v
      → IsCaughtUp now v
      → second_reading v < whole_seconds (answer_time r w) + 5 * second
      → ((run_reconcile (run_controller r lib client finalizer_name false) key v).0
          ≡ some (requeued r))
        × (writes (reconciled v).trace ≡ writes (reconciled w).trace)
        × ((status_at (reconciled v).server).start_time ≡ some (whole_seconds (answer_time r w)))
  run_controller-rests doc compared grooms no_event reads run params w listed wanted given encoded
        stores ok {v} now meanwhile caught_up h =
      let t = whole_seconds (answer_time r w) in
      let (stored, time) =
        run_controller-stores r lib client finalizer_name doc compared grooms key run params w
          listed wanted given encoded status_at stores ok in
      let (kept, quiet) = Meanwhile-rests doc no_event reads t stored meanwhile in
      let (res, trace, server) = reconciled-early doc no_event reads t now v caught_up kept h in
      (res, trace ∙ quiet, ap (λ s. s.start_time) server ∙ kept)
