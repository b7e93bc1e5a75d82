-- ===== src/Informers/Once.antt =====
-- Calls of `InformerFor` and `Start` in any order: what is made and set running.
use test_concurrent_reconcil.Base.{
  ℕ, suc, ◌≤◌, String, Bool, true, false, Option, some, List, [], ◌∷◌, if◌then◌else◌, EqType, ◌==◌,
  ◌≡◌, refl, ◌∙◌, ap, Bool-cases, Option-cases, inl, inr, arith,
}
use test_concurrent_reconcil.Base.Maps.{Map, lookup, lookup-insert}
use test_concurrent_reconcil.Informers.{
  SharedInformerFactory, or_false, or_default, informer_for, start_one, start_all, start_informers,
  new_filtered_shared_informer_factory,
}

-- A call of the factory; `asked` with the function that makes the informer.
pub data Use (K I Cl : Type 0) : Type 0 where
  asked : (Cl → ℕ → I) → K → Use K I Cl
  starts : Use K I Cl

module _ {K I Cl Tw : Type 0} ⦃e : EqType K⦄ where
  abbrev pub used :
      Use K I Cl
      → SharedInformerFactory K I Cl Tw × List (K × I)
      → SharedInformerFactory K I Cl Tw × List (K × I)
  used (asked new_func k) (f, running) = ((informer_for new_func k f).1, running)
  used starts s = start_informers s

  -- The newest call comes first.
  abbrev pub after_uses :
      List (Use K I Cl)
      → SharedInformerFactory K I Cl Tw × List (K × I)
      → SharedInformerFactory K I Cl Tw × List (K × I)
  after_uses [] s = s
  after_uses (u ∷ past) s = used u (after_uses past s)

abbrev pub as_count : Bool → ℕ
as_count false = 0
as_count true = 1

as_count_le : (n : ℕ) (b : Bool) → n ≡ as_count b → n ≤ 1
as_count_le n true h = omega arith
as_count_le n false h = omega arith

module _ {K : Type 0} ⦃e : EqType K⦄ where
  abbrev pub is_started : K → Map K Bool → Bool
  is_started j started = or_false (lookup j started)

module _ {K I : Type 0} ⦃e : EqType K⦄ where
  -- How many informers of a type were set running.
  abbrev pub runs : K → List (K × I) → ℕ
  runs j [] = 0
  runs j ((k, informer) ∷ running) =
      let before = runs j running in if k == j then suc before else before

  is_started-start_one :
      (j k : K) (i : I) (s : Map K Bool × List (K × I))
      → is_started j (start_one (k, i) s).0 ≡ (if is_started j s.0 then true else k == j)
  unfolding start_one
  is_started-start_one j k i s = ground (arith, lookup-insert k j true s.0, e.equals_iff k j)

  start_one-runs :
      (j k : K) (i : I) (s : Map K Bool × List (K × I))
      → runs j s.1 ≡ as_count (is_started j s.0)
      → runs j (start_one (k, i) s).1 ≡ as_count (is_started j (start_one (k, i) s).0)
  unfolding start_one
  start_one-runs j k i s h = ground (arith, lookup-insert k j true s.0, e.equals_iff k j)

  start_all-runs :
      (j : K) (informers : Map K I) (s : Map K Bool × List (K × I))
      → runs j s.1 ≡ as_count (is_started j s.0)
      → runs j (start_all informers s).1 ≡ as_count (is_started j (start_all informers s).0)
  unfolding start_all
  start_all-runs j [] s h = h
  start_all-runs j ((k, i) ∷ rest) s h =
      start_all-runs j rest (start_one (k, i) s) (start_one-runs j k i s h)

  start_all-stays :
      (j : K) (informers : Map K I) (s : Map K Bool × List (K × I))
      → is_started j s.0 ≡ true
      → is_started j (start_all informers s).0 ≡ true
  unfolding start_all
  start_all-stays j [] s h = h
  start_all-stays j ((k, i) ∷ rest) s h =
      start_all-stays j rest (start_one (k, i) s) (ground (arith, is_started-start_one j k i s))

  start_all-started :
      (j : K) (i : I) (informers : Map K I) (s : Map K Bool × List (K × I))
      → lookup j informers ≡ some i
      → is_started j (start_all informers s).0 ≡ true
  unfolding start_all lookup
  start_all-started j i [] s h = cc
  start_all-started j i ((k, informer) ∷ rest) s h = elim (Bool-cases (k == j)) [
    | inl here ↦
        start_all-stays j rest (start_one (k, informer) s)
          (ground (arith, is_started-start_one j k informer s))
    | inr there ↦ start_all-started j i rest (start_one (k, informer) s) (simp there at h)
  ]

fresh-runs :
    {K Cl Tw : Type 0} ⦃e : EqType K⦄ (I : Type 0) (client : Cl) (default_resync : ℕ)
    (namespace : String) (tweak : Option Tw) (k : K)
    → let f : SharedInformerFactory K I Cl Tw =
        new_filtered_shared_informer_factory client default_resync namespace tweak in
      0 ≡ as_count (is_started k f.started_informers)
unfolding new_filtered_shared_informer_factory lookup
fresh-runs I client default_resync namespace tweak k = refl

module _ {K I Cl Tw : Type 0} ⦃e : EqType K⦄ where
  runs-used :
      (j : K) (u : Use K I Cl) (s : SharedInformerFactory K I Cl Tw × List (K × I))
      → runs j s.1 ≡ as_count (is_started j s.0.started_informers)
      → runs j (used u s).1 ≡ as_count (is_started j (used u s).0.started_informers)
  unfolding informer_for start_informers
  runs-used j (asked new_func k) (f, running) h = elim (Option-cases (lookup k f.informers)) [
    | inl absent ↦ simp absent h
    | inr (i, present) ↦ simp present h
  ]
  runs-used j starts (f, running) h = start_all-runs j f.informers (f.started_informers, running) h

  runs-after_uses :
      (j : K) (past : List (Use K I Cl)) (s : SharedInformerFactory K I Cl Tw × List (K × I))
      → runs j s.1 ≡ as_count (is_started j s.0.started_informers)
      → runs j (after_uses past s).1
        ≡ as_count (is_started j (after_uses past s).0.started_informers)
  runs-after_uses j [] s h = h
  runs-after_uses j (u ∷ past) s h = runs-used j u (after_uses past s) (runs-after_uses j past s h)

  -- The factory as it is made for one namespace, with nothing running.
  abbrev pub fresh_factory :
      Cl → ℕ → String → Option Tw → SharedInformerFactory K I Cl Tw × List (K × I)
  fresh_factory client default_resync namespace tweak =
      (new_filtered_shared_informer_factory client default_resync namespace tweak, [])

  -- Whatever calls of `InformerFor` and `Start` a new factory has had: of a type for which it has an
  -- informer, at most one informer was set running, and after a further `Start` exactly one was.
  pub runs_once :
      (client : Cl) (default_resync : ℕ) (namespace : String) (tweak : Option Tw)
      (past : List (Use K I Cl)) (k : K) (i : I)
      → lookup k (after_uses past (fresh_factory client default_resync namespace tweak)).0.informers
        ≡ some i
      → let s = after_uses past (fresh_factory client default_resync namespace tweak) in
        (runs k s.1 ≤ 1) × (runs k (start_informers s).1 ≡ 1)
  unfolding start_informers
  runs_once client default_resync namespace tweak past k i present =
      let fresh : SharedInformerFactory K I Cl Tw × List (K × I) =
        fresh_factory client default_resync namespace tweak in
      let s = after_uses past fresh in
      let before =
        runs-after_uses k past fresh (fresh-runs I client default_resync namespace tweak k) in
      let after = runs-used k starts s before in
      let started = start_all-started k i s.0.informers (s.0.started_informers, s.1) present in
      (as_count_le _ _ before, after ∙ ap as_count started)

  lookup-used :
      (k : K) (i : I) (u : Use K I Cl) (s : SharedInformerFactory K I Cl Tw × List (K × I))
      → lookup k s.0.informers ≡ some i
      → lookup k (used u s).0.informers ≡ some i
  unfolding informer_for start_informers
  lookup-used k i (asked new_func j) (f, running) h = elim (Option-cases (lookup j f.informers)) [
    | inl absent ↦ simp absent (
        ground (
          arith,
          lookup-insert j k
              (new_func f.client (or_default f.default_resync (lookup j f.custom_resync)))
              f.informers,
          e.equals_iff j k,
        ))
    | inr (other, present) ↦ simp present h
  ]
  lookup-used k i starts (f, running) h = h

  lookup-after_uses :
      (k : K) (i : I) (past : List (Use K I Cl))
      (s : SharedInformerFactory K I Cl Tw × List (K × I))
      → lookup k s.0.informers ≡ some i
      → lookup k (after_uses past s).0.informers ≡ some i
  lookup-after_uses k i [] s h = h
  lookup-after_uses k i (u ∷ past) s h =
      lookup-used k i u (after_uses past s) (lookup-after_uses k i past s h)

  lookup-informer_for :
      (new_func : Cl → ℕ → I) (k : K) (f : SharedInformerFactory K I Cl Tw)
      → lookup k (informer_for new_func k f).1.informers ≡ some (informer_for new_func k f).0
  unfolding informer_for
  lookup-informer_for new_func k f = elim (Option-cases (lookup k f.informers)) [
    | inl absent ↦ simp absent (
        ground (
          arith,
          lookup-insert k k
              (new_func f.client (or_default f.default_resync (lookup k f.custom_resync)))
              f.informers,
          e.equals_iff k k,
        ))
    | inr (i, present) ↦ simp present refl
  ]

  informer_for-known :
      (new_func : Cl → ℕ → I) (k : K) (i : I) (f : SharedInformerFactory K I Cl Tw)
      → lookup k f.informers ≡ some i
      → (informer_for new_func k f).0 ≡ i
  unfolding informer_for
  informer_for-known new_func k i f h = simp h refl

  -- `InformerFor` gives all callers that ask for one type the same informer, whatever calls came
  -- between and whatever function each caller would make it with.
  pub informer_for_again :
      (new_func other_func : Cl → ℕ → I) (k : K) (past : List (Use K I Cl))
      (f : SharedInformerFactory K I Cl Tw) (running : List (K × I))
      → let (i, f') = informer_for new_func k f in
        (informer_for other_func k (after_uses past (f', running)).0).0 ≡ i
  informer_for_again new_func other_func k past f running =
      let (i, f') = informer_for new_func k f in
      informer_for-known other_func k i (after_uses past (f', running)).0
        (lookup-after_uses k i past (f', running) (lookup-informer_for new_func k f))
