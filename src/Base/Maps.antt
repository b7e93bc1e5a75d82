-- ===== src/Base/Maps.antt =====
-- Go's `map[K]V` as an association list: `m[k]`, `m[k] = v`, `delete(m, k)`.
use mathlib.Core.Path.{◌≡◌, refl}
use mathlib.Core.Logic.{◌↔◌, ◌⊎◌, inl}
use mathlib.Core.Bool.{Bool, true, false, ◌&&◌}
use mathlib.Core.Option.{Option, none, some}
use mathlib.Core.List.{List, [], ◌∷◌}
use native.Mathlib.Omega.{arith}
use test_concurrent_reconcil.Base.Tests.{if◌then◌else◌}
use test_concurrent_reconcil.Base.Eq.{EqType, ◌==◌}

abbrev pub Map {ℓ κ} : Type ℓ → Type κ → Type (ℓ ⊔ κ)
Map K V = List (K × V)

module _ {ℓ} {V : Type ℓ} where
  abbrev pub or_else : Option V → Option V → Option V
  or_else none o = o
  or_else (some v) o = some v

module _ {ℓ} {V : Type ℓ} ⦃f : EqType V⦄ where
  abbrev pub same_value : Option V → Option V → Bool
  same_value none none = true
  same_value (some v) (some w) = v == w
  same_value _ _ = false

  pub same_value_iff : (o p : Option V) → (same_value o p ≡ true) ↔ (o ≡ p)
  same_value_iff none none = ground arith
  same_value_iff none (some w) = ground arith
  same_value_iff (some v) none = ground arith
  same_value_iff (some v) (some w) = ground (arith, f.equals_iff v w)

module _ {ℓ κ} {K : Type ℓ} {V : Type κ} ⦃e : EqType K⦄ where
  unfoldable pub lookup : K → Map K V → Option V
  lookup k [] = none
  lookup k ((j, v) ∷ rest) = if j == k then some v else lookup k rest

  unfoldable pub insert : K → V → Map K V → Map K V
  insert k v [] = (k, v) ∷ []
  insert k v ((j, w) ∷ rest) = if j == k then (k, v) ∷ rest else (j, w) ∷ insert k v rest

  unfoldable pub delete : K → Map K V → Map K V
  delete k [] = []
  delete k ((j, w) ∷ rest) = let kept = delete k rest in if j == k then kept else (j, w) ∷ kept

  -- a read after a write sees the write at its key, and the old value elsewhere
  pub lookup-insert :
      (k j : K) (v : V) (rest : Map K V)
      → lookup j (insert k v rest) ≡ (if k == j then some v else lookup j rest)
  unfolding lookup insert
  lookup-insert k j v [] = refl
  lookup-insert k j v ((i, w) ∷ rest) =
      ground (arith, e.equals_iff k j, e.equals_iff i k, e.equals_iff i j, lookup-insert k j v rest)

  -- a read after a delete misses at the deleted key, and sees the old value elsewhere
  pub lookup-delete :
      (k j : K) (rest : Map K V)
      → lookup j (delete k rest) ≡ (if k == j then none else lookup j rest)
  unfolding lookup delete
  lookup-delete k j [] = ground arith
  lookup-delete k j ((i, w) ∷ rest) =
      ground (arith, e.equals_iff k j, e.equals_iff i k, e.equals_iff i j, lookup-delete k j rest)

  -- `for key, value := range src { rest[key] = value }`. Go iterates in any order; here the last
  -- entry goes first, so that the value that a read of `src` gives is the one that stays.
  unfoldable pub insert_all : Map K V → Map K V → Map K V
  insert_all [] rest = rest
  insert_all ((k, v) ∷ src) rest = insert k v (insert_all src rest)

  pub lookup-insert_all :
      (j : K) (src rest : Map K V)
      → lookup j (insert_all src rest) ≡ or_else (lookup j src) (lookup j rest)
  unfolding lookup insert_all
  lookup-insert_all j [] rest = refl
  lookup-insert_all j ((k, v) ∷ src) rest =
      ground (arith, lookup-insert k j v (insert_all src rest), lookup-insert_all j src rest)

module _ {ℓ κ} {K : Type ℓ} {V : Type κ} ⦃e : EqType K⦄ ⦃f : EqType V⦄ where
  abbrev pub agree_on : Map K V → Map K V → Map K V → Bool
  agree_on [] a b = true
  agree_on ((k, v) ∷ keys) a b = same_value (lookup k a) (lookup k b) && agree_on keys a b

  -- `reflect.DeepEqual` of two maps that are not nil.
  unfoldable pub same_entries : Map K V → Map K V → Bool
  same_entries a b = agree_on a a b && agree_on b a b

  agree_on_at :
      (keys a b : Map K V) (k : K)
      → agree_on keys a b ≡ true
      → (lookup k keys ≡ none) ⊎ (lookup k a ≡ lookup k b)
  unfolding lookup
  agree_on_at [] a b k h = inl refl
  agree_on_at ((j, v) ∷ keys) a b k h =
      ground
        (arith, same_value_iff (lookup j a) (lookup j b), agree_on_at keys a b k, e.equals_iff j k)

  agree_on_all :
      (keys a b : Map K V) → ((k : K) → lookup k a ≡ lookup k b) → agree_on keys a b ≡ true
  agree_on_all [] a b h = refl
  agree_on_all ((j, v) ∷ keys) a b h =
      ground (arith, same_value_iff (lookup j a) (lookup j b), agree_on_all keys a b h, h j)

  -- two maps have the same entries exactly if they give the same value, or none, at every key
  pub same_entries_iff :
      (a b : Map K V) → (same_entries a b ≡ true) ↔ ((k : K) → lookup k a ≡ lookup k b)
  unfolding same_entries
  same_entries_iff a b = (
    (λ h k. ground (arith, agree_on_at a a b k, agree_on_at b a b k)),
    (λ h. ground (arith, agree_on_all a a b h, agree_on_all b a b h)),
  )
