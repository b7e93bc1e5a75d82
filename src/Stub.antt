-- ===== src/Stub.antt =====
-- pkg/client/injection/reconciler/pipeline/v1alpha1/run/stub: the reconciler and the controller that
-- a new kind of Run starts from. Its controller is Tekton's, whose `NewImpl` is a parameter.
pub mod Reported
use test_concurrent_reconcil.Base.{String, Option, none, some, List, [], ◌∷◌}
use test_concurrent_reconcil.Kube.{event_type_normal, Error, event, Resource, M, pure}
use test_concurrent_reconcil.Clientset.{Outcome, returned}
use test_concurrent_reconcil.Generated.Types.{DoReconcile, Interface}
use test_concurrent_reconcil.RunController.Events.{Handling, key_of, and_then}

abbrev pub new_reconciled_normal : String → String → Error
new_reconciled_normal namespace name = event (record {
  event_type = event_type_normal;
  reason = "RunReconciled";
  format = "Run reconciled: \"%s/%s\"";
  args = namespace ∷ name ∷ [];
})

module _ {W Spec Status : Type 0} where
  abbrev pub stub_reconcile_kind : DoReconcile W (Resource Spec Status)
  stub_reconcile_kind o = pure (o, some (new_reconciled_normal o.meta.namespace o.meta.name))

  -- `Reconciler`: of the optional interfaces it implements none.
  abbrev pub stub_reconciler : Interface W (Resource Spec Status)
  stub_reconciler = record {
    reconcile_kind = stub_reconcile_kind;
    finalizer = none;
    read_only_interface = none;
    read_only_finalizer = none;
  }

module _ {W Spec Status H Im Inf : Type 0} (handling : Handling W (Resource Spec Status) H)
    (new_impl : Interface W (Resource Spec Status) → Im)
    (enqueue : Im → String × String → M W (Unit {0})) where
  -- The implementation, and the handlers that the informer of Runs then has.
  abbrev pub stub_new_controller : Outcome Inf → Outcome (Im × List H)
  stub_new_controller run_informer = and_then run_informer (λ informer.
      let impl = new_impl stub_reconciler in
      returned (impl, handling.handle_all (λ run. enqueue impl (key_of run)) ∷ []))
