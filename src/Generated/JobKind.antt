-- ===== src/Generated/JobKind.antt =====
-- The generated reconciler of Jobs: reconciler.go and state.go of
-- pkg/client/injection/reconciler/job/v1alpha1/job. What
-- the template leaves open is `job_template`; the functions are the template's at a reconciler
-- built with it.
use test_concurrent_reconcil.Base.{String, Bool, Option, none, EqType}
use test_concurrent_reconcil.Kube.{Error, Returns, Resource, M}
use test_concurrent_reconcil.Generated.Types.{
  KindWorld, Interface, Client, Library, Template, ReconcilerImpl,
}
use test_concurrent_reconcil.Generated.State.{State, new_state}
use test_concurrent_reconcil.Generated.Finalizers.{
  update_finalizers_filtered, set_finalizer_if_finalizer, clear_finalizer,
}
use test_concurrent_reconcil.Generated.Status.{update_status}
use test_concurrent_reconcil.Generated.Reconcile.{reconcile}

module _ {S Spec Status X T : Type 0} where
  -- Without a role the key is done. A failed patch is reported on what the client returned,
  -- a patch that succeeds by the name in what the client returned.
  abbrev pub job_template : Template S Spec Status X T
  job_template = record {
    not_leader = λ key. none;
    failure_object = λ existing updated. updated;
    updated_name = λ resource updated. updated.meta.name;
  }

-- `reconcilerImpl` of this kind: all but the template.
pub record JobParts (S Spec Status X T : Type 0) : Type 0 where
  pub library : Library S Spec Status X T
  pub client : Client S (Resource Spec Status)
  pub reconciler : Interface (KindWorld S Spec Status X) (Resource Spec Status)
  pub finalizer_name : String
  pub skip_status_updates : Bool

module _ {S Spec Status X T : Type 0} where
  abbrev pub job_impl : JobParts S Spec Status X T → ReconcilerImpl S Spec Status X T
  job_impl p = record {
    template = job_template;
    library = p.library;
    client = p.client;
    reconciler = p.reconciler;
    finalizer_name = p.finalizer_name;
    skip_status_updates = p.skip_status_updates;
  }

  unfoldable pub job_new_state :
      JobParts S Spec Status X T
      → String
      → M
          (KindWorld S Spec Status X)
          (Option (State (KindWorld S Spec Status X) (Resource Spec Status)))
  unfolding new_state
  job_new_state p key = new_state key (job_impl p)

  unfoldable pub job_update_finalizers_filtered :
      JobParts S Spec Status X T
      → Resource Spec Status
      → M (KindWorld S Spec Status X) (Returns (Resource Spec Status))
  unfolding update_finalizers_filtered
  job_update_finalizers_filtered p = update_finalizers_filtered (job_impl p)

  unfoldable pub job_set_finalizer_if_finalizer :
      JobParts S Spec Status X T
      → Resource Spec Status
      → M (KindWorld S Spec Status X) (Returns (Resource Spec Status))
  unfolding set_finalizer_if_finalizer
  job_set_finalizer_if_finalizer p = set_finalizer_if_finalizer (job_impl p)

  unfoldable pub job_clear_finalizer :
      JobParts S Spec Status X T
      → Resource Spec Status
      → Option Error
      → M (KindWorld S Spec Status X) (Returns (Resource Spec Status))
  unfolding clear_finalizer
  job_clear_finalizer p = clear_finalizer (job_impl p)

module _ {S Spec Status X T : Type 0} ⦃e : EqType Status⦄ where
  unfoldable pub job_update_status :
      JobParts S Spec Status X T
      → Resource Spec Status
      → Resource Spec Status
      → M (KindWorld S Spec Status X) (Option Error)
  unfolding update_status
  job_update_status p = update_status (job_impl p)

  unfoldable pub job_reconcile :
      JobParts S Spec Status X T → String → M (KindWorld S Spec Status X) (Option Error)
  unfolding reconcile
  job_reconcile p = reconcile (job_impl p)
