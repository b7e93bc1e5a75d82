-- ===== src/Generated/Reconcile.antt =====
-- `Reconcile` of reconciler.go. Logging and the decoration of the context are left out.
use test_concurrent_reconcil.Base.{String, Bool, Option, none, some, [], ◌∷◌, if◌then◌else◌, EqType}
use test_concurrent_reconcil.Kube.{
  event_type_warning, Error, wrap, is_event, Resource, Returns, M, pure, act, read, record_event,
  text, error_text, ◌>>=◌, ◌>>◌,
}
use test_concurrent_reconcil.Base.{map}
use test_concurrent_reconcil.Generated.Types.{KindWorld, ReconcilerImpl}
use test_concurrent_reconcil.Generated.State.{
  State, Method, do_reconcile_kind, do_observe_kind, do_finalize_kind, do_observe_finalize_kind,
  unknown, is_not_leader_nor_observer, reconcile_method_for, new_state,
}
use test_concurrent_reconcil.Generated.Finalizers.{set_finalizer_if_finalizer, clear_finalizer}
use test_concurrent_reconcil.Generated.Status.{update_status}

-- A statement of `Reconcile` returns at once, or goes on with the object and the event.
pub data Flow (R : Type 0) : Type 0 where
  returned : Option Error → Flow R
  goes_on : R → Option Error → Flow R

module _ {S Spec Status X T : Type 0} where
  -- The `switch` on the method's name.
  unfoldable pub run_method :
      ReconcilerImpl S Spec Status X T
      → Resource Spec Status
      → Method (KindWorld S Spec Status X) (Resource Spec Status)
      → M (KindWorld S Spec Status X) (Flow (Resource Spec Status))
  run_method r original (do_reconcile_kind do_it) = do
    (resource, err) ← set_finalizer_if_finalizer r original
    elim err [
      | some e ↦ pure (returned (some (wrap "failed to set finalizers: %w" e)))
      | none ↦ do
        (reconciled, event) ←
            do_it
              (if r.skip_status_updates then resource else r.library.pre_process_reconcile resource)
        pure (
            goes_on
              (if r.skip_status_updates
                then reconciled
                else r.library.post_process_reconcile reconciled original)
              event)
    ]
  run_method r original (do_finalize_kind do_it) = do
    (finalized, event) ← do_it original
    (resource, err) ← clear_finalizer r finalized event
    elim err [
      | some e ↦ pure (returned (some (wrap "failed to clear finalizers: %w" e)))
      | none ↦ pure (goes_on resource event)
    ]
  run_method r original (do_observe_kind do_it) = do
    (observed, event) ← do_it original
    pure (goes_on observed event)
  run_method r original (do_observe_finalize_kind do_it) = do
    (observed, event) ← do_it original
    pure (goes_on observed event)
  run_method r original unknown = pure (goes_on original none)

  -- "Report the reconciler event, if any."
  unfoldable pub report :
      ReconcilerImpl S Spec Status X T
      → Resource Spec Status
      → Option Error
      → M (KindWorld S Spec Status X) (Option Error)
  report r resource none = pure none
  report r resource (some e) = elim (r.library.event_as e) [
    | some found ↦ do
      act (record_event resource found.event_type found.reason found.format (map text found.args))
      elim (is_event e) [ none ↦ pure (some e) | some direct ↦ pure none ]
    | none ↦ do
      act (record_event resource event_type_warning "InternalError" "" (error_text e ∷ []))
      pure (some e)
  ]

module _ {S Spec Status X T : Type 0} ⦃e : EqType Status⦄ where
  -- "Synchronize the status."
  unfoldable pub synchronize_status :
      ReconcilerImpl S Spec Status X T
      → Bool
      → Resource Spec Status
      → Resource Spec Status
      → M (KindWorld S Spec Status X) (Option Error)
  unfolding update_status
  synchronize_status r is_leader original resource =
      if r.skip_status_updates
      then pure none
      else if r.library.semantic_deep_equal original.status resource.status
      then pure none
      else if is_leader
      then (do
        err ← update_status r original resource
        elim err [
          | none ↦ pure none
          | some failed ↦ do
            act (
                record_event resource event_type_warning "UpdateFailed"
                  "Failed to update status for %q: %v"
                  (text resource.meta.name ∷ error_text failed ∷ []))
            pure (some failed)
        ])
      else pure none

  unfoldable pub finish :
      ReconcilerImpl S Spec Status X T
      → Bool
      → Resource Spec Status
      → Flow (Resource Spec Status)
      → M (KindWorld S Spec Status X) (Option Error)
  unfolding synchronize_status report
  finish r is_leader original (returned err) = pure err
  finish r is_leader original (goes_on resource event) = do
    err ← synchronize_status r is_leader original resource
    elim err [ some failed ↦ pure (some failed) | none ↦ report r resource event ]

  -- From the object that the lister returns.
  unfoldable pub process_found :
      ReconcilerImpl S Spec Status X T
      → State (KindWorld S Spec Status X) (Resource Spec Status)
      → Returns (Resource Spec Status)
      → M (KindWorld S Spec Status X) (Option Error)
  process_found r s (original, none) = do
    flow ← run_method r original (reconcile_method_for s original)
    finish r s.is_leader original flow
  process_found r s (original, some failed) =
      pure (if r.library.is_not_found failed then none else some failed)

  unfoldable pub process :
      ReconcilerImpl S Spec Status X T
      → Option (State (KindWorld S Spec Status X) (Resource Spec Status))
      → String
      → M (KindWorld S Spec Status X) (Option Error)
  process r none key = pure none
  process r (some s) key =
      if is_not_leader_nor_observer s
      then pure (r.template.not_leader key)
      else do found ← read (r.library.lister_get s.namespace s.name); process_found r s found

  unfoldable pub reconcile :
      ReconcilerImpl S Spec Status X T → String → M (KindWorld S Spec Status X) (Option Error)
  reconcile r key = do state ← new_state key r; process r state key
