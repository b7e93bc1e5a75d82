-- ===== src/Kube/Pointers.antt =====
-- Objects behind pointers.
use native.Mathlib.Decide.{ℕ_discrete}
use Prim.Native.Nat.{ℕ, suc}
use mathlib.Core.Path.{◌≡◌}
use mathlib.Core.Logic.{ite, ◌≢◌}
use native.Mathlib.Omega.{arith}
use test_concurrent_reconcil.Kube.Effects.{M}

-- The objects of one type: those below `size` have been allocated.
pub record Memory (A : Type 0) : Type 0 where
  pub at : ℕ → A
  pub size : ℕ

module _ {A : Type 0} where
  abbrev pub written : ℕ → A → (ℕ → A) → ℕ → A
  written p a f q = ite (ℕ_discrete p q) a (f q)

  -- `*p = a`
  abbrev pub store : ℕ → A → Memory A → Memory A
  store p a m = record m { at = written p a m.at }

  -- `new(T)` with what is written to it first, and its address
  abbrev pub alloc : A → M (Memory A) ℕ
  alloc a m = (m.size, record { at = written m.size a m.at; size = suc m.size })

pub written_same : {A : Type 0} (p : ℕ) (a : A) (f : ℕ → A) → written p a f p ≡ a
written_same p a f = ground arith

pub written_other : {A : Type 0} (p q : ℕ) (a : A) (f : ℕ → A) → p ≢ q → written p a f q ≡ f q
written_other p q a f h = ground arith
