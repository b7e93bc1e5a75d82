-- ===== src/JobApi/Parts.antt =====
-- What the library documents of its copies, and that the copy of a Job keeps to it too.
use test_concurrent_reconcil.Base.{ℕ, ◌≤◌, ◌<◌, ◌≡◌, refl, sym, ◌∙◌, true, arith}
use test_concurrent_reconcil.Kube.{Memory}
use test_concurrent_reconcil.JobApi.{Part}

module _ {C : Type 0} where
  -- What was allocated stays as it was.
  pub record Extends (m n : Memory C) : Type 0 where
    pub grows : m.size ≤ n.size
    pub keeps : (a : ℕ) → a < m.size → n.at a ≡ m.at a

  abbrev pub Extends-refl : (m : Memory C) → Extends m m
  Extends-refl m = record { grows = omega arith; keeps = λ a h. refl }

  pub Extends-trans : {m n o : Memory C} → Extends m n → Extends n o → Extends m o
  Extends-trans e f = record {
    grows = omega (arith, e.grows, f.grows);
    keeps = λ a h. f.keeps a (omega (arith, e.grows, h)) ∙ e.keeps a h;
  }

module _ {C P V : Type 0} (part : Part C P V) where
  -- All that a struct points at has been allocated.
  abbrev pub IsLive : P → Memory C → Type 0
  IsLive p m = (a : ℕ) → part.reaches p m.at a ≡ true → a < m.size

  abbrev pub IsFresh : ℕ → P → Memory C → Type 0
  IsFresh base p m = (a : ℕ) → part.reaches p m.at a ≡ true → base ≤ a

  -- `DeepCopyInto` of a live struct gives an equal one that points only at what the call has
  -- allocated, and changes nothing that was there. What a struct points at, and its value with it,
  -- depend only on the cells that it points at.
  pub record Documented : Type 0 where
    pub same :
        (p : P) (m : Memory C)
        → IsLive p m
        → let (out, n) = part.deep_copy_into p m in part.view out n.at ≡ part.view p m.at
    pub live :
        (p : P) (m : Memory C) → IsLive p m → let (out, n) = part.deep_copy_into p m in IsLive out n
    pub fresh :
        (p : P) (m : Memory C)
        → IsLive p m
        → let (out, n) = part.deep_copy_into p m in IsFresh m.size out n
    pub extends : (p : P) (m : Memory C) → Extends m (part.deep_copy_into p m).1
    pub local :
        (p : P) (f g : ℕ → C)
        → ((a : ℕ) → part.reaches p f a ≡ true → g a ≡ f a)
        → part.view p g ≡ part.view p f
    pub reaches_local :
        (p : P) (f g : ℕ → C)
        → ((a : ℕ) → part.reaches p f a ≡ true → g a ≡ f a)
        → (a : ℕ) → part.reaches p g a ≡ part.reaches p f a

module _ {C P V : Type 0} (part : Part C P V) (d : Documented part) where
  pub view-stays :
      {p : P} {m n : Memory C} → IsLive part p m → Extends m n → part.view p n.at ≡ part.view p m.at
  view-stays {p} {m} {n} live e = d.local p m.at n.at (λ a h. e.keeps a (live a h))

  pub reaches-stays :
      {p : P} {m n : Memory C}
      → IsLive part p m
      → Extends m n
      → (a : ℕ) → part.reaches p n.at a ≡ part.reaches p m.at a
  reaches-stays {p} {m} {n} live e = d.reaches_local p m.at n.at (λ a h. e.keeps a (live a h))

  pub IsLive-stays : {p : P} {m n : Memory C} → IsLive part p m → Extends m n → IsLive part p n
  IsLive-stays live e a h = omega (arith, live a (sym (reaches-stays live e a) ∙ h), e.grows)

  pub IsFresh-stays :
      {base : ℕ} {p : P} {m n : Memory C}
      → IsLive part p m
      → Extends m n
      → IsFresh part base p m
      → IsFresh part base p n
  IsFresh-stays live e fresh a h = fresh a (sym (reaches-stays live e a) ∙ h)
