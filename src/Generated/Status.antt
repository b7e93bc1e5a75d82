-- ===== src/Generated/Status.antt =====
-- `updateStatus` of reconciler.go.
use test_concurrent_reconcil.Base.{ℕ, Option, none, some, if◌then◌else◌, ◌==◌, EqType, nat_eq}
use test_concurrent_reconcil.Kube.{
  Error, Returns, Resource, M, pure, request, live_get, put_status, ◌>>=◌,
}
use test_concurrent_reconcil.Generated.Types.{KindWorld, ReconcilerImpl}

module _ {S Spec Status X T : Type 0} ⦃e : EqType Status⦄ where
  abbrev pub put_if_different :
      ReconcilerImpl S Spec Status X T
      → Resource Spec Status
      → Resource Spec Status
      → M (KindWorld S Spec Status X) (Option Error)
  put_if_different r existing desired = if existing.status == desired.status then pure none else do
    let existing' = record existing { status = desired.status }
    (updated, err) ← request (put_status existing') (r.client.update_status existing')
    pure err

  abbrev pub put_latest :
      ReconcilerImpl S Spec Status X T
      → Resource Spec Status
      → Returns (Resource Spec Status)
      → M (KindWorld S Spec Status X) (Option Error)
  put_latest r desired (existing, none) = put_if_different r existing desired
  put_latest r desired (existing, some err) = pure (some err)

  -- The function that is retried. From the second attempt on, `existing` is read anew.
  unfoldable pub status_attempt :
      ReconcilerImpl S Spec Status X T
      → Resource Spec Status
      → Resource Spec Status
      → ℕ
      → M (KindWorld S Spec Status X) (Option Error)
  status_attempt r existing desired attempts =
      if attempts == 0 then put_if_different r existing desired else do
        latest ←
            request (live_get desired.meta.namespace desired.meta.name)
              (r.client.get desired.meta.namespace desired.meta.name)
        put_latest r desired latest

  unfoldable pub update_status :
      ReconcilerImpl S Spec Status X T
      → Resource Spec Status
      → Resource Spec Status
      → M (KindWorld S Spec Status X) (Option Error)
  update_status r existing desired =
      r.library.retry_update_conflicts (status_attempt r existing desired)
