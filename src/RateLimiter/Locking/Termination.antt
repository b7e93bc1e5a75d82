-- ===== src/RateLimiter/Locking/Termination.antt =====
-- The calls under way end whatever the schedule: a run in which no call begins is short, and goes on
-- as long as a call is under way.
use native.Mathlib.Decide.{ℕ_discrete, dec_lt}
use test_concurrent_reconcil.Base.{
  ℕ, zero, suc, ◌+◌, ◌*◌, ◌≤◌, ◌<◌, ◌≡◌, refl, ap, EqType, arith, false, ◌⊎◌, inl, inr,
}
use test_concurrent_reconcil.RateLimiter.Locking.{
  Pc, idle, blocked, entered, loaded, returning, System, update, Step, call, lock, load, store,
  count, remove, unlock, Reach, next,
}
use test_concurrent_reconcil.RateLimiter.Locking.Progress.{
  begins, Finishing, done, step, call_returns,
}
use test_concurrent_reconcil.RateLimiter.{Duration}

module _ {K : Type 0} where
  -- How many steps are left of a goroutine's call.
  abbrev pub left : Pc K → ℕ
  left idle = 0
  left (blocked c) = 4
  left (entered c) = 3
  left (loaded item n) = 2
  left (returning reply) = 1

  -- The steps left of the goroutines below `n`.
  abbrev pub total : ℕ → (ℕ → Pc K) → ℕ
  total zero pc = 0
  total (suc n) pc = total n pc + left (pc n)

  total-update_above :
      (n i : ℕ) (pc : ℕ → Pc K) (p : Pc K) → n ≤ i → total n (update pc i p) ≡ total n pc
  total-update_above zero i pc p h = refl
  total-update_above (suc n) i pc p h = ground (arith, total-update_above n i pc p)

  total-update :
      (n i : ℕ) (pc : ℕ → Pc K) (p : Pc K)
      → i < n
      → total n (update pc i p) + left (pc i) ≡ total n pc + left p
  total-update zero i pc p h = absurd (omega arith)
  total-update (suc n) i pc p h = elim (ℕ_discrete i n) [
    | yes same ↦ ground (arith, total-update_above n i pc p, ap (λ k. left (pc k)) same)
    | no other ↦ ground (arith, total-update n i pc p)
  ]

  left_le : (p : Pc K) → left p ≤ 4
  left_le idle = omega arith
  left_le (blocked c) = omega arith
  left_le (entered c) = omega arith
  left_le (loaded item n) = omega arith
  left_le (returning reply) = omega arith

  total_le : (n : ℕ) (pc : ℕ → Pc K) → total n pc ≤ 4 * n
  total_le zero pc = omega arith
  total_le (suc n) pc = omega (arith, total_le n pc, left_le (pc n))

  -- Only the goroutines below `n` are in a call.
  abbrev pub IsBelow : ℕ → System K → Type 0
  IsBelow n s = (k : ℕ) → n ≤ k → s.pc k ≡ idle

  in_call : (n i : ℕ) (pc : ℕ → Pc K) → ((k : ℕ) → n ≤ k → pc k ≡ idle) → 0 < left (pc i) → i < n
  in_call n i pc below busy = elim (dec_lt i n) [
    | yes h ↦ h
    | no h ↦ ground (arith, below i (omega (arith, h)))
  ]

  -- A goroutine that moves on within its call has fewer steps left.
  total-moves :
      {n : ℕ} (i : ℕ) (pc : ℕ → Pc K) (p : Pc K)
      → ((k : ℕ) → n ≤ k → pc k ≡ idle)
      → left p < left (pc i)
      → (total n (update pc i p) < total n pc) × ((k : ℕ) → n ≤ k → update pc i p k ≡ idle)
  total-moves {n} i pc p below fewer =
      let i_below : i < n = in_call n i pc below (omega (arith, fewer)) in
      (
        omega (arith, total-update n i pc p i_below, fewer),
        λ k h. elim (ℕ_discrete i k) [
          | yes same ↦ absurd (omega (arith, same, i_below, h))
          | no other ↦ ground (arith, below k h)
        ],
      )

module _ {K : Type 0} ⦃e : EqType K⦄ where
  -- A goroutine is outside, or some goroutine can take a step with which no call begins.
  abbrev pub IsOver : System K → ℕ → Type 0
  IsOver t i = (t.pc i ≡ idle) ⊎ ((u : System K) × (st : Step t u) × (begins st ≡ false))

  Step-total :
      {n : ℕ} {s t : System K} (st : Step s t)
      → begins st ≡ false
      → IsBelow n s
      → (total n t.pc < total n s.pc) × IsBelow n t
  Step-total (call i c p) internal below = cc
  Step-total {s = s} (lock i c p free) internal below =
      total-moves i s.pc _ below (rw p (omega arith))
  Step-total {s = s} (load i item p) internal below =
      total-moves i s.pc _ below (rw p (omega arith))
  Step-total {s = s} (store i item n p) internal below =
      total-moves i s.pc _ below (rw p (omega arith))
  Step-total {s = s} (count i item p) internal below =
      total-moves i s.pc _ below (rw p (omega arith))
  Step-total {s = s} (remove i item p) internal below =
      total-moves i s.pc _ below (rw p (omega arith))
  Step-total {s = s} (unlock i reply p) internal below =
      total-moves i s.pc _ below (rw p (omega arith))

  Finishing-total :
      {n k : ℕ} {s t : System K} → Finishing k s t → IsBelow n s → k + total n t.pc ≤ total n s.pc
  Finishing-total done below = omega arith
  Finishing-total (step st internal rest) below =
      let (fewer, below') = Step-total st internal below in
      omega (arith, Finishing-total rest below', fewer)

  Finishing-Reach :
      {d : Duration} {k : ℕ} {s t : System K} → Reach d s → Finishing k s t → Reach d t
  Finishing-Reach r done = r
  Finishing-Reach r (step st internal rest) = Finishing-Reach (next r st) rest

  -- A goroutine that can return is outside, or some call can go on.
  goes_on : {k : ℕ} {t u : System K} (i : ℕ) → Finishing k t u → u.pc i ≡ idle → IsOver t i
  goes_on i done outside = inl outside
  goes_on i (step {t = v} st internal rest) outside = inr (v, st, internal)

  -- Whatever the schedule, a run in which no call begins, from a reachable state in which only the
  -- goroutines below `n` are in a call, has at most `4 * n` steps; and it can stop only when every
  -- call has returned: at its end each goroutine is outside, or a call under way can take a further
  -- step.
  pub finishes :
      {d : Duration} {n k : ℕ} {s t : System K}
      → Reach d s
      → Finishing k s t
      → IsBelow n s
      → (k ≤ 4 * n) × ((i : ℕ) → IsOver t i)
  finishes {n} {s = s} r run below = (
    omega (arith, Finishing-total run below, total_le n s.pc),
    λ i.
        let (m, u, rest, few, outside) = call_returns i (Finishing-Reach r run) in
        goes_on i rest outside,
  )
