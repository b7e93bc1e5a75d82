-- ===== src/RateLimiter/History.antt =====
-- The limiter against a history of calls, the newest first.
use test_concurrent_reconcil.Base.{
  ℕ, suc, ◌%◌, ◌≡◌, refl, EqType, ◌==◌, if◌then◌else◌, arith, List, [], ◌∷◌,
}
use test_concurrent_reconcil.Base.Maps.{lookup}
use test_concurrent_reconcil.RateLimiter.{
  int_size, Duration, ItemFixedDurationRateLimiter, new_fixed_duration_rate_limiter, num_requeues,
  when, forget, Call, when_call, num_requeues_call, forget_call, serve,
}
use test_concurrent_reconcil.RateLimiter.Limits.{when-num_requeues, forget-num_requeues}

module _ {K : Type 0} ⦃e : EqType K⦄ where
  -- How often the item was delayed since it was last forgotten.
  pub delays_since_forget : K → List (Call K) → ℕ
  delays_since_forget j [] = 0
  delays_since_forget j (when_call i ∷ past) =
      let before = delays_since_forget j past in if i == j then suc before else before
  delays_since_forget j (num_requeues_call i ∷ past) = delays_since_forget j past
  delays_since_forget j (forget_call i ∷ past) =
      let before = delays_since_forget j past in if i == j then 0 else before

  unfoldable pub run : Duration → List (Call K) → ItemFixedDurationRateLimiter K
  unfolding new_fixed_duration_rate_limiter serve
  run d [] = new_fixed_duration_rate_limiter d
  run d (c ∷ past) = (serve c (run d past)).0

  pub run-fixed_delay : (d : Duration) (past : List (Call K)) → (run d past).fixed_delay ≡ d
  unfolding run serve when forget new_fixed_duration_rate_limiter
  run-fixed_delay d [] = refl
  run-fixed_delay d (when_call i ∷ past) = run-fixed_delay d past
  run-fixed_delay d (num_requeues_call i ∷ past) = run-fixed_delay d past
  run-fixed_delay d (forget_call i ∷ past) = run-fixed_delay d past

  num_requeues-serve :
      (c : Call K) (past : List (Call K)) (j : K) (r : ItemFixedDurationRateLimiter K)
      → num_requeues j r ≡ delays_since_forget j past % int_size
      → num_requeues j (serve c r).0 ≡ delays_since_forget j (c ∷ past) % int_size
  unfolding serve delays_since_forget
  num_requeues-serve (when_call i) past j r h = ground (arith, when-num_requeues i j r)
  num_requeues-serve (num_requeues_call i) past j r h = h
  num_requeues-serve (forget_call i) past j r h = ground (arith, forget-num_requeues i j r)

  pub num_requeues-run :
      (d : Duration) (past : List (Call K)) (j : K)
      → num_requeues j (run d past) ≡ delays_since_forget j past % int_size
  unfolding run
  num_requeues-run d [] j = unfold num_requeues delays_since_forget lookup in refl
  num_requeues-run d (c ∷ past) j =
      num_requeues-serve c past j (run d past) (num_requeues-run d past j)
