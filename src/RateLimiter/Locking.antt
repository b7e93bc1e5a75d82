-- ===== src/RateLimiter/Locking.antt =====
-- The limiter under concurrent callers (pkg/custom/rate_limiters.go): each method takes
-- `failuresLock` first and gives it back, by `defer`, after the result has been computed. A map
-- read and the write that follows are two steps.
pub mod Linearizable
pub mod Progress
pub mod Termination
use native.Mathlib.Decide.{ℕ_discrete}
use mathlib.Core.Logic.{ite}
use test_concurrent_reconcil.Base.{ℕ, ◌+◌, ◌%◌, ◌≡◌, EqType, Option, none, some, List, [], ◌∷◌}
use test_concurrent_reconcil.Base.Maps.{insert}
use test_concurrent_reconcil.RateLimiter.{
  int_size, Duration, ItemFixedDurationRateLimiter, new_fixed_duration_rate_limiter, num_requeues,
  forget, Call, when_call, num_requeues_call, forget_call, Reply, delay, requeues, nothing,
}

-- Where a goroutine stands: outside, waiting for the lock, holding it at the first statement of
-- the method's body, holding it with the count that `When` has read, or about to release it.
pub data Pc (K : Type 0) : Type 0 where
  idle : Pc K
  blocked : Call K → Pc K
  entered : Call K → Pc K
  loaded : K → ℕ → Pc K
  returning : Reply → Pc K

-- The limiter in memory, the lock's holder, the goroutines, and (a ghost) the calls that have
-- taken effect with what they return, the newest first.
pub record System (K : Type 0) : Type 0 where
  pub limiter : ItemFixedDurationRateLimiter K
  pub holder : Option ℕ
  pub pc : ℕ → Pc K
  pub history : List (Call K × Reply)

abbrev pub update {ℓ} : {A : Type ℓ} → (ℕ → A) → ℕ → A → ℕ → A
update f i a j = ite (ℕ_discrete i j) a (f j)

module _ {K : Type 0} where
  abbrev pub goes : System K → ℕ → Pc K → System K
  goes s i p = record s { pc = update s.pc i p }

  abbrev pub commits : System K → ℕ → ItemFixedDurationRateLimiter K → Call K → Reply → System K
  commits s i r c reply = record s {
    limiter = r;
    pc = update s.pc i (returning reply);
    history = (c, reply) ∷ s.history;
  }

module _ {K : Type 0} ⦃e : EqType K⦄ where
  pub data Step (s : System K) : System K → Type 0 where
    call : (i : ℕ) (c : Call K) → s.pc i ≡ idle → Step s (goes s i (blocked c))
    lock :
        (i : ℕ) (c : Call K)
        → s.pc i ≡ blocked c
        → s.holder ≡ none
        → Step s (record s { holder = some i; pc = update s.pc i (entered c) })
    load :
        (i : ℕ) (item : K)
        → s.pc i ≡ entered (when_call item)
        → Step s (goes s i (loaded item (num_requeues item s.limiter)))
    store :
        (i : ℕ) (item : K) (n : ℕ)
        → s.pc i ≡ loaded item n
        → Step s (
            commits s i
              (record s.limiter { failures = insert item ((n + 1) % int_size) s.limiter.failures })
              (when_call item)
              (delay s.limiter.fixed_delay))
    count :
        (i : ℕ) (item : K)
        → s.pc i ≡ entered (num_requeues_call item)
        → Step s (
            commits s i s.limiter (num_requeues_call item) (requeues (num_requeues item s.limiter)))
    remove :
        (i : ℕ) (item : K)
        → s.pc i ≡ entered (forget_call item)
        → Step s (commits s i (forget item s.limiter) (forget_call item) nothing)
    unlock :
        (i : ℕ) (reply : Reply)
        → s.pc i ≡ returning reply
        → Step s (record s { holder = none; pc = update s.pc i idle })

  abbrev pub start : Duration → System K
  start d = record {
    limiter = new_fixed_duration_rate_limiter d;
    holder = none;
    pc = λ i. idle;
    history = [];
  }

  pub data Reach (d : Duration) : System K → Type 0 where
    here : Reach d (start d)
    next : {s t : System K} → Reach d s → Step s t → Reach d t
