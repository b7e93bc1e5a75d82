-- ===== src/RateLimiter/Limits.antt =====
-- What one call of `When` or `Forget` does to the counts of all items.
use test_concurrent_reconcil.Base.{◌+◌, ◌%◌, ◌≡◌, EqType, ◌==◌, if◌then◌else◌, arith, nat_eq}
use test_concurrent_reconcil.Base.Maps.{lookup-insert, lookup-delete}
use test_concurrent_reconcil.RateLimiter.{
  int_size, ItemFixedDurationRateLimiter, num_requeues, when, forget,
}

module _ {K : Type 0} ⦃e : EqType K⦄ where
  pub when-num_requeues :
      (item j : K) (r : ItemFixedDurationRateLimiter K)
      → num_requeues j (when item r).0
        ≡ (if item == j then (num_requeues j r + 1) % int_size else num_requeues j r)
  unfolding when num_requeues
  when-num_requeues item j r = ground (
    arith,
    lookup-insert item j ((num_requeues item r + 1) % int_size) r.failures,
    e.equals_iff item j,
  )

  pub forget-num_requeues :
      (item j : K) (r : ItemFixedDurationRateLimiter K)
      → num_requeues j (forget item r) ≡ (if item == j then 0 else num_requeues j r)
  unfolding forget num_requeues
  forget-num_requeues item j r = ground (arith, lookup-delete item j r.failures)
