-- ===== src/RunController/Finishing.antt =====
-- What follows a reconciler's method for a leader, where the status has changed: what a nil result
-- says of `updateStatus`, and what it leaves at the API server.
use test_concurrent_reconcil.Base.{true, false, Option, none, ◌≡◌, EqType, arith}
use test_concurrent_reconcil.Kube.{Error, Resource}
use test_concurrent_reconcil.Generated.Types.{KindWorld, ReconcilerImpl}
use test_concurrent_reconcil.Generated.Status.{update_status}
use test_concurrent_reconcil.Generated.Reconcile.{goes_on, synchronize_status, report, finish}

module _ {S Spec Status X T : Type 0} ⦃e : EqType Status⦄ (r : ReconcilerImpl S Spec Status X T)
    (original o : Resource Spec Status) where
  module _ (updates : r.skip_status_updates ≡ false)
      (differ : r.library.semantic_deep_equal original.status o.status ≡ false)
      (v : KindWorld S Spec Status X) where
    synchronize_status-none :
        (synchronize_status r true original o v).0 ≡ none → (update_status r original o v).0 ≡ none
    unfolding synchronize_status
    synchronize_status-none ok = ground arith

    pub finish-none :
        (ev : Option Error)
        → (finish r true original (goes_on o ev) v).0 ≡ none
        → (update_status r original o v).0 ≡ none
    unfolding finish
    finish-none ev ok = synchronize_status-none (ground arith)

    synchronize_status-server :
        (synchronize_status r true original o v).1.server ≡ (update_status r original o v).1.server
    unfolding synchronize_status
    synchronize_status-server = ground arith

    report-server :
        (ev : Option Error) (u : KindWorld S Spec Status X) → (report r o ev u).1.server ≡ u.server
    unfolding report
    report-server ev u = ground arith

    pub finish-server :
        (ev : Option Error)
        → (finish r true original (goes_on o ev) v).1.server
          ≡ (update_status r original o v).1.server
    unfolding finish
    finish-server ev = ground (
      arith,
      report-server ev (synchronize_status r true original o v).1,
      synchronize_status-server,
    )
