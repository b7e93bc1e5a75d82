-- ===== src/RateLimiter/Locking/Progress.antt =====
-- Every call can return: from a reachable state, whoever holds the lock gives it back, and then the
-- lock is free for the goroutine that waits.
use test_concurrent_reconcil.Base.{
  ℕ, suc, ◌+◌, ◌≤◌, ◌≡◌, ◌≢◌, refl, Bool, true, false, EqType, none, some, arith, ◌∙◌, Option-cases,
  inl, inr,
}
use test_concurrent_reconcil.RateLimiter.{
  Duration, Call, when_call, num_requeues_call, forget_call, Reply,
}
use test_concurrent_reconcil.RateLimiter.Locking.{
  Pc, idle, blocked, entered, loaded, returning, System, update, Step, call, lock, load, store,
  count, remove, unlock, Reach, here, next,
}
use test_concurrent_reconcil.RateLimiter.Locking.Linearizable.{inside}

update_same : {A : Type 0} (f : ℕ → A) (i : ℕ) (a : A) → update f i a i ≡ a
update_same f i a = ground arith

module _ {K : Type 0} ⦃e : EqType K⦄ where
  abbrev pub begins : {s t : System K} → Step s t → Bool
  begins (call i c p) = true
  begins _ = false

  -- A run of that many steps in which no call begins.
  pub data Finishing : ℕ → System K → System K → Type 0 where
    done : {s : System K} → Finishing 0 s s
    step :
        {n : ℕ} {s t u : System K} (st : Step s t)
        → begins st ≡ false
        → Finishing n t u
        → Finishing (suc n) s u

  -- The lock's holder is between `Lock` and `Unlock`.
  IsHeld : System K → Type 0
  IsHeld s = (j : ℕ) → s.holder ≡ some j → inside (s.pc j) ≡ true

  Step-IsHeld : {s t : System K} → Step s t → IsHeld s → IsHeld t
  unfolding IsHeld
  Step-IsHeld (call i c p) v j h = ground (arith, v j)
  Step-IsHeld (lock i c p free) v j h = ground (arith, v j)
  Step-IsHeld (load i item p) v j h = ground (arith, v j)
  Step-IsHeld (store i item n p) v j h = ground (arith, v j)
  Step-IsHeld (count i item p) v j h = ground (arith, v j)
  Step-IsHeld (remove i item p) v j h = ground (arith, v j)
  Step-IsHeld (unlock i reply p) v j h = cc

  Reach-IsHeld : {d : Duration} {s : System K} → Reach d s → IsHeld s
  unfolding IsHeld
  Reach-IsHeld here j h = cc
  Reach-IsHeld (next r st) j h = Step-IsHeld st (Reach-IsHeld r) j h

  -- After at most `n` steps goroutine `j` is outside, the lock is free and the others stand where
  -- they stood.
  record Drained (n : ℕ) (s : System K) (j : ℕ) : Type 0 where
    steps : ℕ
    after : System K
    runs : Finishing steps s after
    few : steps ≤ n
    outside : after.pc j ≡ idle
    free : after.holder ≡ none
    others : (k : ℕ) → j ≢ k → after.pc k ≡ s.pc k

  drain_returning :
      (s : System K) (j : ℕ) (reply : Reply) → s.pc j ≡ returning reply → Drained 1 s j
  drain_returning s j reply p = record {
    steps = 1;
    after = record s { holder = none; pc = update s.pc j idle };
    runs = step (unlock j reply p) refl done;
    few = omega arith;
    outside = ground arith;
    free = refl;
    others = λ k ne. ground arith;
  }

  step_then :
      {s t : System K} {n j : ℕ} (st : Step s t)
      → begins st ≡ false
      → ((k : ℕ) → j ≢ k → t.pc k ≡ s.pc k)
      → Drained n t j
      → Drained (suc n) s j
  step_then st internal same rest = record {
    steps = suc rest.steps;
    after = rest.after;
    runs = step st internal rest.runs;
    few = omega (arith, rest.few);
    outside = rest.outside;
    free = rest.free;
    others = λ k ne. rest.others k ne ∙ same k ne;
  }

  longer : {s : System K} {n j : ℕ} → Drained n s j → Drained (suc n) s j
  longer r = record {
    steps = r.steps;
    after = r.after;
    runs = r.runs;
    few = omega (arith, r.few);
    outside = r.outside;
    free = r.free;
    others = r.others;
  }

  drain_loaded : (s : System K) (j : ℕ) (item : K) (n : ℕ) → s.pc j ≡ loaded item n → Drained 2 s j
  drain_loaded s j item n p =
      step_then (store j item n p) refl (λ k ne. ground arith)
        (drain_returning _ j _ (update_same s.pc j _))

  drain_entered : (s : System K) (j : ℕ) (c : Call K) → s.pc j ≡ entered c → Drained 3 s j
  drain_entered s j (when_call item) p =
      step_then (load j item p) refl (λ k ne. ground arith)
        (drain_loaded _ j item _ (update_same s.pc j _))
  drain_entered s j (num_requeues_call item) p = longer (
      step_then (count j item p) refl (λ k ne. ground arith)
        (drain_returning _ j _ (update_same s.pc j _)))
  drain_entered s j (forget_call item) p = longer (
      step_then (remove j item p) refl (λ k ne. ground arith)
        (drain_returning _ j _ (update_same s.pc j _)))

  drain_inside : (s : System K) (j : ℕ) (at : Pc K) → s.pc j ≡ at → inside at ≡ true → Drained 3 s j
  drain_inside s j idle p h = cc
  drain_inside s j (blocked c) p h = cc
  drain_inside s j (entered c) p h = drain_entered s j c p
  drain_inside s j (loaded item n) p h = longer (drain_loaded s j item n p)
  drain_inside s j (returning reply) p h = longer (longer (drain_returning s j reply p))

  -- A goroutine that waits while the lock is free gets it and returns.
  drain_blocked :
      (s : System K) (i : ℕ) (c : Call K) → s.pc i ≡ blocked c → s.holder ≡ none → Drained 4 s i
  drain_blocked s i c p free =
      step_then (lock i c p free) refl (λ k ne. ground arith)
        (drain_entered _ i c (update_same s.pc i _))

  Finishing-trans :
      {m n : ℕ} {s t u : System K}
      → Finishing m s t
      → Finishing n t u
      → (k : ℕ) × Finishing k s u × (k ≤ m + n)
  Finishing-trans done q = (_, q, omega arith)
  Finishing-trans (step st internal p) q =
      let (k, r, few) = Finishing-trans p q in (suc k, step st internal r, omega (arith, few))

  -- A goroutine has returned after at most that many steps in which no call begins.
  abbrev pub Returns : ℕ → System K → ℕ → Type 0
  Returns n s i = (k : ℕ) × (t : System K) × Finishing k s t × (k ≤ n) × (t.pc i ≡ idle)

  returns_inside : {m i : ℕ} {s : System K} (n : ℕ) → Drained m s i → m ≤ n → Returns n s i
  returns_inside n own h = (own.steps, own.after, own.runs, omega (arith, own.few), own.outside)

  returns_blocked :
      {d : Duration} {s : System K} (i : ℕ) (c : Call K)
      → Reach d s
      → s.pc i ≡ blocked c
      → Returns 7 s i
  unfolding IsHeld
  returns_blocked {s = s} i c r p = elim (Option-cases s.holder) [
    | inl free ↦ let own = drain_blocked s i c p free in returns_inside 7 own (omega arith)
    | inr (j, held) ↦
        let first = drain_inside s j (s.pc j) refl (Reach-IsHeld r j held) in
        let own =
          drain_blocked first.after i c
            (first.others i (λ same. cc (Reach-IsHeld r j held, same, p)) ∙ p) first.free in
        let (k, both, few) = Finishing-trans first.runs own.runs in
        (k, own.after, both, omega (arith, few, first.few, own.few), own.outside)
  ]

  -- From every reachable state each goroutine's call can return, whatever it calls and wherever it
  -- stands: there is a run of at most seven steps, in which no call begins, after which it is
  -- outside.
  pub call_returns : {d : Duration} {s : System K} (i : ℕ) → Reach d s → Returns 7 s i
  call_returns {s = s} i r = from (s.pc i) refl
    where
      from : (at : Pc K) → s.pc i ≡ at → Returns 7 s i
      from idle p = (0, s, done, omega arith, p)
      from (blocked c) p = returns_blocked i c r p
      from (entered c) p = returns_inside 7 (drain_inside s i (entered c) p refl) (omega arith)
      from (loaded item n) p =
          returns_inside 7 (drain_inside s i (loaded item n) p refl) (omega arith)
      from (returning reply) p =
          returns_inside 7 (drain_inside s i (returning reply) p refl) (omega arith)
