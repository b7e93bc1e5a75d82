-- ===== src/RateLimiter/Locking/Linearizable.antt =====
-- Every interleaving of the goroutines is a sequence of whole calls.
use native.Mathlib.Decide.{ℕ_discrete}
use mathlib.Core.Logic.{if_pos, if_neg}
use test_concurrent_reconcil.Base.{
  ℕ, ◌%◌, ◌≡◌, ◌≢◌, refl, Bool, true, false, EqType, some, List, [], ◌∷◌, arith,
}
use test_concurrent_reconcil.RateLimiter.{
  int_size, Duration, ItemFixedDurationRateLimiter, num_requeues, when, Call, Reply, serve,
}
use test_concurrent_reconcil.RateLimiter.History.{run, delays_since_forget, num_requeues-run}
use test_concurrent_reconcil.RateLimiter.Locking.{
  Pc, idle, blocked, entered, loaded, returning, System, update, Step, call, lock, load, store,
  count, remove, unlock, start, Reach, here, next,
}

module _ {K : Type 0} where
  -- The goroutine holds the lock.
  abbrev pub inside : Pc K → Bool
  inside idle = false
  inside (blocked c) = false
  inside _ = true

  abbrev pub calls : List (Call K × Reply) → List (Call K)
  calls [] = []
  calls ((c, reply) ∷ past) = c ∷ calls past

module _ {K : Type 0} ⦃e : EqType K⦄ (d : Duration) where
  -- Each reply of the history is the one that the calls before it, run one after another, give.
  abbrev pub Replies : List (Call K × Reply) → Type 0
  Replies [] = Unit
  Replies ((c, reply) ∷ past) = (reply ≡ (serve c (run d (calls past))).1) × Replies past

  -- A count that a goroutine has read is still the count.
  abbrev pub Fresh : ItemFixedDurationRateLimiter K → Pc K → Type 0
  Fresh r idle = Unit
  Fresh r (loaded item n) = n ≡ num_requeues item r
  Fresh r _ = Unit

  pub record Inv (s : System K) : Type 0 where
    pub holds : (i : ℕ) → inside (s.pc i) ≡ true → s.holder ≡ some i
    pub fresh : (i : ℕ) → Fresh s.limiter (s.pc i)
    pub sequential : s.limiter ≡ run d (calls s.history)
    pub replies : Replies s.history

  Fresh-outside : (r : ItemFixedDurationRateLimiter K) (p : Pc K) → inside p ≡ false → Fresh r p
  Fresh-outside r idle h = tt
  Fresh-outside r (blocked c) h = tt
  Fresh-outside r (entered c) h = cc
  Fresh-outside r (loaded item n) h = cc
  Fresh-outside r (returning reply) h = cc

  Fresh-update :
      (r : ItemFixedDurationRateLimiter K) (pc : ℕ → Pc K) (i j : ℕ) (p : Pc K)
      → Fresh r p
      → (i ≢ j → Fresh r (pc j))
      → Fresh r (update pc i p j)
  Fresh-update r pc i j p at_i elsewhere = elim (ℕ_discrete i j) [
    | yes same ↦ rw (if_pos _ same) at_i
    | no other ↦ rw (if_neg _ other) (elsewhere other)
  ]

  -- While one goroutine holds the lock, no other does.
  alone :
      {s : System K} → Inv s → (i j : ℕ) → inside (s.pc i) ≡ true → i ≢ j → inside (s.pc j) ≡ false
  alone v i j h ne = ground (arith, v.holds i, v.holds j)

  Step-holds :
      {s t : System K} → Step s t → Inv s → (j : ℕ) → inside (t.pc j) ≡ true → t.holder ≡ some j
  Step-holds (call i c p) v j = ground (arith, v.holds j)
  Step-holds (lock i c p free) v j = ground (arith, v.holds j)
  Step-holds (load i item p) v j = ground (arith, v.holds i, v.holds j)
  Step-holds (store i item n p) v j = ground (arith, v.holds i, v.holds j)
  Step-holds (count i item p) v j = ground (arith, v.holds i, v.holds j)
  Step-holds (remove i item p) v j = ground (arith, v.holds i, v.holds j)
  Step-holds (unlock i reply p) v j = ground (arith, v.holds i, v.holds j)

  -- A goroutine that writes the map holds the lock, so the others have read nothing yet.
  Fresh-commit :
      {s : System K} (r : ItemFixedDurationRateLimiter K) (i j : ℕ) (reply : Reply)
      → Inv s
      → inside (s.pc i) ≡ true
      → Fresh r (update s.pc i (returning reply) j)
  Fresh-commit {s} r i j reply v h =
      Fresh-update r s.pc i j (returning reply) tt
        (λ other. Fresh-outside r (s.pc j) (alone v i j h other))

  Step-Fresh : {s t : System K} → Step s t → Inv s → (j : ℕ) → Fresh t.limiter (t.pc j)
  Step-Fresh {s} (call i c p) v j =
      Fresh-update s.limiter s.pc i j (blocked c) tt (λ other. v.fresh j)
  Step-Fresh {s} (lock i c p free) v j =
      Fresh-update s.limiter s.pc i j (entered c) tt (λ other. v.fresh j)
  Step-Fresh {s} (load i item p) v j =
      Fresh-update s.limiter s.pc i j (loaded item (num_requeues item s.limiter)) refl
        (λ other. v.fresh j)
  Step-Fresh (store i item n p) v j = Fresh-commit _ i j _ v (rw p refl)
  Step-Fresh {s} (count i item p) v j = Fresh-commit s.limiter i j _ v (rw p refl)
  Step-Fresh (remove i item p) v j = Fresh-commit _ i j _ v (rw p refl)
  Step-Fresh {s} (unlock i reply p) v j =
      Fresh-update s.limiter s.pc i j idle tt (λ other. v.fresh j)

  Step-sequential : {s t : System K} → Step s t → Inv s → t.limiter ≡ run d (calls t.history)
  unfolding run serve when num_requeues
  Step-sequential (store i item n p) v = rw (← v.sequential) (ground (arith, v.fresh i))
  Step-sequential (count i item p) v = v.sequential
  Step-sequential (remove i item p) v = rw (← v.sequential) refl
  Step-sequential st v = v.sequential

  Step-Replies : {s t : System K} → Step s t → Inv s → Replies t.history
  unfolding serve when num_requeues
  Step-Replies (store i item n p) v = (rw (← v.sequential) refl, v.replies)
  Step-Replies (count i item p) v = (rw (← v.sequential) refl, v.replies)
  Step-Replies (remove i item p) v = (refl, v.replies)
  Step-Replies st v = v.replies

  Step-Inv : {s t : System K} → Step s t → Inv s → Inv t
  Step-Inv st v = record {
    holds = Step-holds st v;
    fresh = Step-Fresh st v;
    sequential = Step-sequential st v;
    replies = Step-Replies st v;
  }

  start-Inv : Inv (start d)
  unfolding run
  start-Inv = record { holds = λ i h. cc; fresh = λ i. tt; sequential = refl; replies = tt }

  pub Reach-Inv : {s : System K} → Reach d s → Inv s
  Reach-Inv here = start-Inv
  Reach-Inv (next r st) = Step-Inv st (Reach-Inv r)

  -- However goroutines interleave, the limiter in memory is the one that the completed calls give
  -- when they run one after another in the order in which they took effect, and each call returned
  -- what it returns in that sequential run.
  pub Reach-linearizable :
      {s : System K} → Reach d s → (s.limiter ≡ run d (calls s.history)) × Replies s.history
  Reach-linearizable r = let v = Reach-Inv r in (v.sequential, v.replies)

  -- In every reachable state at most one goroutine is between `Lock` and `Unlock`.
  pub mutual_exclusion :
      {s : System K} (i j : ℕ) → Reach d s → inside (s.pc i) ≡ true → inside (s.pc j) ≡ true → i ≡ j
  mutual_exclusion i j r hi hj = ground (arith, (Reach-Inv r).holds i, (Reach-Inv r).holds j)

  -- In every reachable state, whatever the interleaving, the count of an item is the number of
  -- `When` calls on it that took effect since the last `Forget` of it, modulo 2 ^ 64: no increment
  -- is lost.
  pub num_requeues-Reach :
      {s : System K} (item : K)
      → Reach d s
      → num_requeues item s.limiter ≡ delays_since_forget item (calls s.history) % int_size
  num_requeues-Reach {s} item r =
      rw (Reach-Inv r).sequential (num_requeues-run d (calls s.history) item)
