-- ===== src/Examples/Limiter.antt =====
-- The theorems on the rate limiter under concurrent callers, at two goroutines.
use native.Mathlib.Decide.{ℕ_discrete}
use test_concurrent_reconcil.Base.{
  ℕ, String, ◌≡◌, refl, ◌%◌, ◌*◌, ◌≤◌, string_eq, some, none, arith, [], ◌∷◌,
}
use test_concurrent_reconcil.Base.Maps.{insert, lookup}
use test_concurrent_reconcil.RateLimiter.{
  int_size, new_fixed_duration_rate_limiter, num_requeues, when_call, delay,
}
use test_concurrent_reconcil.RateLimiter.History.{run, delays_since_forget}
use test_concurrent_reconcil.RateLimiter.Locking.{
  System, Reach, start, here, next, call, lock, load, store, commits, idle, blocked, entered,
  loaded, update, unlock,
}
use test_concurrent_reconcil.RateLimiter.Locking.Linearizable.{
  Replies, Reach-linearizable, mutual_exclusion, num_requeues-Reach,
}
use test_concurrent_reconcil.RateLimiter.Locking.Progress.{
  Finishing, done, step, Returns, call_returns,
}
use test_concurrent_reconcil.RateLimiter.Locking.Termination.{IsBelow, IsOver, finishes}

-- Goroutine 0 has read the count of `a` in its call of `When` and holds the lock; goroutine 1
-- waits for it.
abbrev contended : System String
contended = record (start 5) {
  holder = some 0;
  pc =
      update
        (update
          (update (update (λ i. idle) 0 (blocked (when_call "a"))) 1 (blocked (when_call "a"))) 0
          (entered (when_call "a")))
        0 (loaded "a" (num_requeues {K = String} "a" (start 5).limiter));
}

contended-Reach : Reach 5 contended
unfolding ℕ_discrete
contended-Reach =
    next
      (next (next (next here (call 0 (when_call "a") refl)) (call 1 (when_call "a") refl))
        (lock 0 (when_call "a") refl refl))
      (load 0 "a" refl)

abbrev counted : System String
counted =
    commits contended 0
      (record contended.limiter { failures = insert "a" 1 contended.limiter.failures })
      (when_call "a") (delay 5)

counted-Reach : Reach 5 counted
unfolding ℕ_discrete num_requeues lookup new_fixed_duration_rate_limiter
counted-Reach = next contended-Reach (store 0 "a" 0 refl)

Reach-linearizable_example :
    (counted.limiter ≡ run 5 (when_call "a" ∷ []))
    × Replies {K = String} 5 ((when_call "a", delay 5) ∷ [])
Reach-linearizable_example = Reach-linearizable 5 counted-Reach

mutual_exclusion_example : ◌≡◌ {A = ℕ} 0 0
unfolding ℕ_discrete
mutual_exclusion_example = mutual_exclusion 5 0 0 counted-Reach refl refl

num_requeues-Reach_example :
    num_requeues "a" counted.limiter
    ≡ delays_since_forget {K = String} "a" (when_call "a" ∷ []) % int_size
num_requeues-Reach_example = num_requeues-Reach 5 "a" counted-Reach

-- Goroutine 1 waits for goroutine 0.
call_returns_example : Returns 7 contended 1
call_returns_example = call_returns 1 contended-Reach

-- Goroutine 0 stores its count, then releases the lock; goroutine 1 still waits.
contended-Finishing :
    Finishing 2 contended (record counted { holder = none; pc = update counted.pc 0 idle })
unfolding ℕ_discrete num_requeues lookup new_fixed_duration_rate_limiter
contended-Finishing = step (store 0 "a" 0 refl) refl (step (unlock 0 (delay 5) refl) refl done)

contended-IsBelow : IsBelow 2 contended
contended-IsBelow k h = ground arith

finishes_example :
    (2 ≤ 4 * 2)
    × ((i : ℕ) → IsOver (record counted { holder = none; pc = update counted.pc 0 idle }) i)
finishes_example = finishes contended-Reach contended-Finishing contended-IsBelow
