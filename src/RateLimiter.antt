-- ===== src/RateLimiter.antt =====
-- pkg/custom/rate_limiters.go: the limiter that returns one delay for every item and counts how
-- often each item was put back. Each method takes the limiter and returns it with its result; the
-- mutex that each method holds from its first to its last statement is in RateLimiter/Locking.
pub mod Limits
pub mod History
pub mod Locking
use test_concurrent_reconcil.Base.{ℕ, ◌+◌, ◌%◌, ◌^◌, Option, none, some, [], EqType}
use test_concurrent_reconcil.Base.Maps.{Map, lookup, insert, delete}

-- Go's `int` is 64 bits wide: a count is kept modulo 2 ^ 64.
abbrev pub int_size : ℕ
int_size = 2 ^ 64

-- A `time.Duration`, in nanoseconds.
abbrev pub Duration : Type 0
Duration = ℕ

pub record ItemFixedDurationRateLimiter (K : Type 0) : Type 0 where
  pub failures : Map K ℕ
  pub fixed_delay : Duration

-- Reading a key that a Go map lacks gives the zero of its type.
abbrev pub or_zero : Option ℕ → ℕ
or_zero none = 0
or_zero (some n) = n

module _ {K : Type 0} where
  unfoldable pub new_fixed_duration_rate_limiter : Duration → ItemFixedDurationRateLimiter K
  new_fixed_duration_rate_limiter fixed_delay = record { failures = []; fixed_delay = fixed_delay }

module _ {K : Type 0} ⦃e : EqType K⦄ where
  unfoldable pub num_requeues : K → ItemFixedDurationRateLimiter K → ℕ
  num_requeues item r = or_zero (lookup item r.failures)

  unfoldable pub when :
      K → ItemFixedDurationRateLimiter K → ItemFixedDurationRateLimiter K × Duration
  when item r =
      let calls : ℕ = (or_zero (lookup item r.failures) + 1) % int_size in
      (record r { failures = insert item calls r.failures }, r.fixed_delay)

  unfoldable pub forget : K → ItemFixedDurationRateLimiter K → ItemFixedDurationRateLimiter K
  forget item r = record r { failures = delete item r.failures }

-- A call of a method, and what it returns.
pub data Call (K : Type 0) : Type 0 where
  when_call : K → Call K
  num_requeues_call : K → Call K
  forget_call : K → Call K

pub data Reply : Type 0 where
  delay : Duration → Reply
  requeues : ℕ → Reply
  nothing : Reply

module _ {K : Type 0} ⦃e : EqType K⦄ where
  unfoldable pub serve :
      Call K → ItemFixedDurationRateLimiter K → ItemFixedDurationRateLimiter K × Reply
  unfolding when num_requeues forget
  serve (when_call item) r = let (r', d) = when item r in (r', delay d)
  serve (num_requeues_call item) r = (r, requeues (num_requeues item r))
  serve (forget_call item) r = (forget item r, nothing)
