-- ===== src/Kube/Effects.antt =====
-- The world that the code acts on, and the actions that the outside can see.
use Prim.Native.Nat.{ℕ, ◌+◌, suc}
use Prim.Native.String.{String}
use mathlib.Core.List.{List, [], ◌∷◌}
use test_concurrent_reconcil.Kube.Errors.{Error}

-- What an event's text is made from.
pub data Arg : Type 0 where
  text : String → Arg
  error_text : Error → Arg

-- What the code did, in the order in which it did it: requests to the API server (a live read, a
-- write of the status, a patch with its bytes), Kubernetes events on an object (type, reason,
-- format, arguments), and what a kind's own reconciler adds.
pub data Action (R X : Type 0) : Type 0 where
  live_get : String → String → Action R X
  put_status : R → Action R X
  patch : String → String → String → Action R X
  record_event : R → String → String → String → List Arg → Action R X
  extra : X → Action R X

-- `server` is all that other processes may change: the API server and the informers' caches. The
-- clock stands at `time`; `drift k` is how long the world takes up to the k-th reading of it.
-- `trace` has the newest action first.
pub record World (S R X : Type 0) : Type 0 where
  pub server : S
  pub time : ℕ
  pub readings : ℕ
  pub drift : ℕ → ℕ
  pub trace : List (Action R X)

-- A Go function that acts on the world.
abbrev pub M : Type 0 → Type 0 → Type 0
M W A = W → A × W

module _ {W : Type 0} where
  abbrev pub pure : {A : Type 0} → A → M W A
  pure a w = (a, w)

module _ {S R X : Type 0} where
  abbrev pub logs : Action R X → World S R X → World S R X
  logs a w = record w { trace = a ∷ w.trace }

  abbrev pub act : Action R X → M (World S R X) (Unit {0})
  act a w = (tt, logs a w)

  -- a call of the outside, logged as an action
  abbrev pub request : {A : Type 0} → Action R X → M S A → M (World S R X) A
  request a f w = let (x, s) = f w.server in (x, record w { server = s; trace = a ∷ w.trace })

  -- a read of a cache, which the outside does not see
  abbrev pub read : {A : Type 0} → M S A → M (World S R X) A
  read f w = let (x, s) = f w.server in (x, record w { server = s })

  -- `time.Now()`: the clock never goes back.
  abbrev pub now : M (World S R X) ℕ
  now w =
      let t : ℕ = w.time + w.drift w.readings in
      (t, record w { time = t; readings = suc w.readings })

  -- `time.Sleep(d)` takes at least `d`.
  abbrev pub sleep : ℕ → M (World S R X) (Unit {0})
  sleep d w = (tt, record w { time = w.time + d })

infixl 10 ◌>>=◌ ◌>>◌
abbrev pub ◌>>=◌ : {W A B : Type 0} → M W A → (A → M W B) → M W B
◌>>=◌ m f w = let (a, w') = m w in f a w'

abbrev pub ◌>>◌ : {W A B : Type 0} → M W A → M W B → M W B
m >> k = m >>= λ _. k

-- The requests of a trace that change what the API server stores.
module _ {R X : Type 0} where
  abbrev pub writes : List (Action R X) → List (Action R X)
  writes [] = []
  writes (put_status o ∷ l) = put_status o ∷ writes l
  writes (patch namespace name bytes ∷ l) = patch namespace name bytes ∷ writes l
  writes (_ ∷ l) = writes l
