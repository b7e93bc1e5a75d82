-- ===== src/Examples/Generated.antt =====
-- The theorems on the generated code, at the concrete library and reconciler.
use test_concurrent_reconcil.Base.{
  ℕ, String, true, false, not, ◌&&◌, none, some, List, [], ◌∷◌, ◌++◌, ◌≡◌, refl, ◌==◌, string_eq,
  nat_eq, contains, if◌then◌else◌, ◌↔◌, ◌⊎◌,
}
use test_concurrent_reconcil.Kube.{Error, wrap, event, ReconcilerEvent, writes, M}
use test_concurrent_reconcil.Generated.State.{
  State, do_observe_kind, reconcile_method_for, is_not_leader_nor_observer, state_for,
}
use test_concurrent_reconcil.Generated.Finalizers.{
  next_finalizers, releases, set_finalizer_if_finalizer, clear_finalizer,
}
use test_concurrent_reconcil.Generated.Status.{status_attempt, update_status}
use test_concurrent_reconcil.Generated.Reconcile.{report, reconcile}
use test_concurrent_reconcil.Generated.Selection.{Selects, reconcile_method_for_iff}
use test_concurrent_reconcil.Generated.Leadership.{reconcile-quiet}
use test_concurrent_reconcil.Generated.Filtered.{
  IsFiltered, LetsGo, next_finalizers_lem, patch_of, without_mine, writes-clear_finalizer,
  writes-set_finalizer_if_finalizer,
}
use test_concurrent_reconcil.Generated.Updates.{
  After, IsStatusRequest, Settled, update_status-After, update_status-Settled,
}
use test_concurrent_reconcil.Generated.Outcome.{recorded, report_lem, no_method, reconcile-idle}
use test_concurrent_reconcil.Generated.Controller.{promote, Options}
use test_concurrent_reconcil.Generated.Promotion.{queue-promote}
use test_concurrent_reconcil.Examples.Kinds.{
  Job, JobWorld, list_sets, list_sets-IsStringSets, library-Documented, impl, count_up, job_with,
  world_with,
}

reconcile-quiet_example :
    writes (reconcile impl "j" (world_with false (job_with [] none))).1.trace ≡ []
reconcile-quiet_example =
    reconcile-quiet impl "j" ("default", "j") (world_with false (job_with [] none)) (λ o w. refl) tt
      refl refl

-- A Job that is being deleted and has two finalizers.
abbrev deleted : Job
deleted = job_with ("jobs" ∷ "other" ∷ []) (some 9)

writes-clear_finalizer_example :
    (writes (clear_finalizer impl deleted none (world_with true deleted)).1.trace
      ≡ (if releases impl none then patch_of impl deleted (without_mine impl deleted) ∷ [] else []))
    × ((releases impl none ≡ true) ↔ LetsGo impl none)
    × ((x : String)
        → contains (without_mine impl deleted) x
          ≡ (not ("jobs" == x) && contains ("jobs" ∷ "other" ∷ []) x))
writes-clear_finalizer_example =
    writes-clear_finalizer impl list_sets-IsStringSets (λ j. refl) deleted deleted
      (world_with true deleted) (true, deleted) refl refl refl refl none refl refl refl

writes-set_finalizer_if_finalizer_example :
    writes
      (set_finalizer_if_finalizer impl
        (job_with [] none)
        (world_with true (job_with [] none))).1.trace
    ≡ patch_of impl (job_with [] none) ("jobs" ∷ []) ∷ []
writes-set_finalizer_if_finalizer_example =
    writes-set_finalizer_if_finalizer impl list_sets-IsStringSets (λ j. refl) (job_with [] none)
      (job_with [] none) (world_with true (job_with [] none)) (true, job_with [] none) refl refl
      refl refl refl

next_finalizers_lem_example :
    IsFiltered "jobs"
      ("other" ∷ [])
      ("jobs" ∷ [])
      (next_finalizers list_sets "jobs" ("other" ∷ []) ("jobs" ∷ []))
next_finalizers_lem_example =
    next_finalizers_lem list_sets list_sets-IsStringSets "jobs" ("other" ∷ []) ("jobs" ∷ [])

-- What this instance is for the Job's key without the lease.
abbrev observer : State JobWorld Job
observer = state_for impl "j" ("default", "j") false

reconcile_method_for_iff_example :
    (reconcile_method_for observer (job_with [] none) ≡ do_observe_kind count_up)
    ↔ Selects observer (job_with [] none) (do_observe_kind count_up)
reconcile_method_for_iff_example =
    reconcile_method_for_iff observer (job_with [] none) (do_observe_kind count_up)

abbrev counted : Job
counted = record (job_with [] none) { status = 3 }

update_status-After_example :
    After
      (IsStatusRequest impl (job_with [] none) counted)
      []
      (update_status impl (job_with [] none) counted (world_with true (job_with [] none))).1.trace
update_status-After_example =
    update_status-After impl (job_with [] none) counted library-Documented
      (world_with true (job_with [] none))

update_status-Settled_example : Settled impl (job_with [] none) counted
unfolding update_status status_attempt
update_status-Settled_example =
    update_status-Settled impl (job_with [] none) counted library-Documented
      (world_with true (job_with [] none)) refl

abbrev wrapped : Error
wrapped =
    wrap "failed: %w"
      (event (record { event_type = "Normal"; reason = "Fine"; format = "fine"; args = [] }))

report_lem_example :
    let (res, after) = report impl deleted (some wrapped) (world_with true deleted) in
    ((res ≡ none) ↔ ((d : ReconcilerEvent) × (wrapped ≡ event d)))
    × ((res ≡ none) ⊎ (res ≡ some wrapped))
    × (after ≡ record (world_with true deleted) { trace = recorded impl deleted wrapped ∷ [] })
report_lem_example = report_lem impl library-Documented deleted wrapped (world_with true deleted)

reconcile-idle_example :
    ((reconcile impl "j" (world_with false deleted)).0 ≡ none)
    × ((reconcile impl "j" (world_with false deleted)).1.trace ≡ [])
unfolding is_not_leader_nor_observer reconcile_method_for
reconcile-idle_example =
    reconcile-idle impl library-Documented "j" (world_with false deleted) none
      (no_method ("default", "j") deleted refl refl refl refl refl)

-- A queue of keys to which each key is appended.
abbrev appending : String × String → M (List (String × String)) (Unit {0})
appending key queue = (tt, queue ++ key ∷ [])

queue-promote_example :
    ((promote (λ queue. ((deleted ∷ deleted ∷ [], none), queue)) appending []).1
      ≡ ("default", "j") ∷ ("default", "j") ∷ [])
    × ((promote (λ queue. ((deleted ∷ deleted ∷ [], none), queue)) appending []).0 ≡ none)
queue-promote_example =
    queue-promote appending (λ queue. queue) (λ key queue. refl)
      (λ queue. ((deleted ∷ deleted ∷ [], none), queue)) []

-- Options that name the finalizer and leave the rest.
abbrev named_options : Options ℕ
named_options = record {
  config_store = some 1;
  finalizer_name = "mine";
  agent_name = "";
  skip_status_updates = true;
}
