-- ===== src/Generated/RunKind.antt =====
-- The generated reconciler of Tekton Runs: reconciler.go and state.go of
-- pkg/client/injection/reconciler/pipeline/v1alpha1/run. What
-- the template leaves open is `run_template`; the functions are the template's at a reconciler
-- built with it.
use test_concurrent_reconcil.Base.{String, Bool, Option, some, EqType}
use test_concurrent_reconcil.Kube.{Error, skip_key, Returns, Resource, M}
use test_concurrent_reconcil.Generated.Types.{
  KindWorld, Interface, Client, Library, Template, ReconcilerImpl,
}
use test_concurrent_reconcil.Generated.State.{
  State, Method, new_state, is_not_leader_nor_observer, reconcile_method_for,
}
use test_concurrent_reconcil.Generated.Finalizers.{
  update_finalizers_filtered, set_finalizer_if_finalizer, clear_finalizer,
}
use test_concurrent_reconcil.Generated.Status.{update_status}
use test_concurrent_reconcil.Generated.Reconcile.{reconcile}

module _ {S Spec Status X T : Type 0} where
  -- Without a role the key is skipped, by an error of its own kind. A failed patch is reported on
  -- the cached object, a patch that succeeds by the name of the object that was handed in.
  abbrev pub run_template : Template S Spec Status X T
  run_template = record {
    not_leader = λ key. some (skip_key key);
    failure_object = λ existing updated. existing;
    updated_name = λ resource updated. resource.meta.name;
  }

-- `reconcilerImpl` of this kind: all but the template.
pub record RunParts (S Spec Status X T : Type 0) : Type 0 where
  pub library : Library S Spec Status X T
  pub client : Client S (Resource Spec Status)
  pub reconciler : Interface (KindWorld S Spec Status X) (Resource Spec Status)
  pub finalizer_name : String
  pub skip_status_updates : Bool

-- `state` of this kind.
abbrev pub RunState : Type 0 → Type 0 → Type 0 → Type 0 → Type 0
RunState S Spec Status X = State (KindWorld S Spec Status X) (Resource Spec Status)

module _ {S Spec Status X : Type 0} where
  unfoldable pub run_is_not_leader_nor_observer : RunState S Spec Status X → Bool
  unfolding is_not_leader_nor_observer
  run_is_not_leader_nor_observer = is_not_leader_nor_observer

  unfoldable pub run_reconcile_method_for :
      RunState S Spec Status X
      → Resource Spec Status
      → Method (KindWorld S Spec Status X) (Resource Spec Status)
  unfolding reconcile_method_for
  run_reconcile_method_for = reconcile_method_for

module _ {S Spec Status X T : Type 0} where
  abbrev pub run_impl : RunParts S Spec Status X T → ReconcilerImpl S Spec Status X T
  run_impl p = record {
    template = run_template;
    library = p.library;
    client = p.client;
    reconciler = p.reconciler;
    finalizer_name = p.finalizer_name;
    skip_status_updates = p.skip_status_updates;
  }

  unfoldable pub run_new_state :
      RunParts S Spec Status X T
      → String
      → M
          (KindWorld S Spec Status X)
          (Option (State (KindWorld S Spec Status X) (Resource Spec Status)))
  unfolding new_state
  run_new_state p key = new_state key (run_impl p)

  unfoldable pub run_update_finalizers_filtered :
      RunParts S Spec Status X T
      → Resource Spec Status
      → M (KindWorld S Spec Status X) (Returns (Resource Spec Status))
  unfolding update_finalizers_filtered
  run_update_finalizers_filtered p = update_finalizers_filtered (run_impl p)

  unfoldable pub run_set_finalizer_if_finalizer :
      RunParts S Spec Status X T
      → Resource Spec Status
      → M (KindWorld S Spec Status X) (Returns (Resource Spec Status))
  unfolding set_finalizer_if_finalizer
  run_set_finalizer_if_finalizer p = set_finalizer_if_finalizer (run_impl p)

  unfoldable pub run_clear_finalizer :
      RunParts S Spec Status X T
      → Resource Spec Status
      → Option Error
      → M (KindWorld S Spec Status X) (Returns (Resource Spec Status))
  unfolding clear_finalizer
  run_clear_finalizer p = clear_finalizer (run_impl p)

module _ {S Spec Status X T : Type 0} ⦃e : EqType Status⦄ where
  unfoldable pub run_update_status :
      RunParts S Spec Status X T
      → Resource Spec Status
      → Resource Spec Status
      → M (KindWorld S Spec Status X) (Option Error)
  unfolding update_status
  run_update_status p = update_status (run_impl p)

  unfoldable pub run_reconcile :
      RunParts S Spec Status X T → String → M (KindWorld S Spec Status X) (Option Error)
  unfolding reconcile
  run_reconcile p = reconcile (run_impl p)
