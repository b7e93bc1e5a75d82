-- ===== src/Generated/Updates.antt =====
-- What `updateStatus` sends, and when it succeeds.
use mathlib.Core.Path.{subst}
use test_concurrent_reconcil.Base.{
  ℕ, zero, suc, Bool, false, Option, none, some, List, ◌∷◌, ◌≡◌, refl, ap, ◌==◌, nat_eq, EqType,
  arith, inl, inr, ◌⊎◌, Bool-cases, ◌∙◌, sym, ◌≢◌,
}
use test_concurrent_reconcil.Kube.{Error, Returns, Resource, M, live_get, put_status, World, Action}
use test_concurrent_reconcil.Generated.Types.{KindWorld, ReconcilerImpl}
use test_concurrent_reconcil.Generated.Status.{
  put_if_different, put_latest, status_attempt, update_status,
}
use test_concurrent_reconcil.Generated.Laws.{Attempts, last, again, Documented}

-- `After P old trace`: `trace` is `old` with actions in front of it that all have `P`.
pub data After {A : Type 0} (P : A → Type 0) (old : List A) : List A → Type 0 where
  unchanged : After P old old
  later : {trace : List A} (a : A) → P a → After P old trace → After P old (a ∷ trace)

After-trans :
    {A : Type 0} {P : A → Type 0} {old mid new : List A}
    → After P old mid
    → After P mid new
    → After P old new
After-trans p unchanged = p
After-trans p (later a h q) = later a h (After-trans p q)

pub suc-ne-zero : (k : ℕ) → (suc k == 0) ≡ false
suc-ne-zero k = ground arith

module _ {S R X : Type 0} where
  -- Retried actions have what each attempt has.
  Attempts-After :
      {P : Action R X → Type 0} {is_conflict : Error → Bool}
      {f : ℕ → M (World S R X) (Option Error)}
      → ((k : ℕ) (w : World S R X) → After P w.trace (f k w).1.trace)
      → {k : ℕ} {w w' : World S R X} {res : Option Error} → Attempts is_conflict f k w res w'
      → After P w.trace w'.trace
  Attempts-After {P} each {k} {w} (last p) =
      subst (λ t. After P w.trace t) (ap (λ q. q.1.trace) p) (each k w)
  Attempts-After {P} each {k} {w} (again e p c slept more) =
      After-trans
        (subst (λ t. After P w.trace t) (ap (λ q. q.1.trace) p ∙ sym slept.same_trace) (each k w))
        (Attempts-After each more)

  -- What holds of each attempt that succeeds holds if the retried action succeeds.
  Attempts-success :
      {Q : Type 0} {is_conflict : Error → Bool} {f : ℕ → M (World S R X) (Option Error)}
      → ((k : ℕ) (w : World S R X) → (f k w).0 ≡ none → Q)
      → {k : ℕ} {w w' : World S R X} {res : Option Error} → Attempts is_conflict f k w res w'
      → res ≡ none
      → Q
  Attempts-success each {k} {w} (last p) ok = each k w (ap (λ q. q.0) p ∙ ok)
  Attempts-success each (again e p c slept more) ok = Attempts-success each more ok

module _ {S Spec Status X T : Type 0} ⦃e : EqType Status⦄ (r : ReconcilerImpl S Spec Status X T)
    (original desired : Resource Spec Status) where
  -- The object whose status is replaced: the cached one, or an answer to a live read.
  abbrev pub WasRead : Resource Spec Status → Type 0
  WasRead existing =
      (existing ≡ original)
      ⊎ ((s : S) × ((r.client.get desired.meta.namespace desired.meta.name s).0 ≡ (existing, none)))

  -- A live read of the object, or a write of an object that was read with only its status replaced
  -- by the wanted one.
  abbrev pub IsStatusRequest : Action (Resource Spec Status) X → Type 0
  IsStatusRequest (live_get namespace name) =
      (namespace ≡ desired.meta.namespace) × (name ≡ desired.meta.name)
  IsStatusRequest (put_status o) =
      (existing : Resource Spec Status) × WasRead existing
      × (o ≡ record existing { status = desired.status })
      × (existing.status ≢ desired.status)
  IsStatusRequest _ = ⊥

  put_if_different-After :
      (existing : Resource Spec Status) (w : KindWorld S Spec Status X)
      → WasRead existing
      → After IsStatusRequest w.trace (put_if_different r existing desired w).1.trace
  put_if_different-After existing w was_read =
      elim (Bool-cases (existing.status == desired.status)) [
        | inl same ↦ simp same unchanged
        | inr differ ↦
            simp differ (
              later _ (existing, was_read, refl, λ p. cc (differ, (e.equals_iff _ _).1 p))
                unchanged)
      ]

  put_if_different-accepted :
      (existing : Resource Spec Status) (w : KindWorld S Spec Status X)
      → (put_if_different r existing desired w).0 ≡ none
      → (existing.status ≡ desired.status)
        ⊎ ((s : S) × ((r.client.update_status (record existing { status = desired.status }) s).0.1
              ≡ none))
  put_if_different-accepted existing w ok = elim (Bool-cases (existing.status == desired.status)) [
    | inl same ↦ inl ((e.equals_iff _ _).0 same)
    | inr differ ↦ inr (w.server, simp differ at ok)
  ]

  abbrev live : S → Returns (Resource Spec Status)
  live s = (r.client.get desired.meta.namespace desired.meta.name s).0

  put_latest-After :
      (s : S) (answer : Returns (Resource Spec Status)) (w : KindWorld S Spec Status X)
      → live s ≡ answer
      → After IsStatusRequest w.trace (put_latest r desired answer w).1.trace
  put_latest-After s (existing, none) w p = put_if_different-After existing w (inr (s, p))
  put_latest-After s (existing, some err) w p = unchanged

  status_attempt-After :
      (k : ℕ) (w : KindWorld S Spec Status X)
      → After IsStatusRequest w.trace (status_attempt r original desired k w).1.trace
  unfolding status_attempt
  status_attempt-After zero w = put_if_different-After original w (inl refl)
  status_attempt-After (suc k) w = simp (suc-ne-zero k) (
      After-trans (later _ (refl, refl) unchanged)
        (put_latest-After w.server (live w.server) _ refl))

  -- The wanted status stands in an object that was read, or the API server accepted it.
  abbrev pub Settled : Type 0
  Settled =
      (existing : Resource Spec Status) × WasRead existing
      × ((existing.status ≡ desired.status)
          ⊎ ((s : S) × ((r.client.update_status (record existing { status = desired.status }) s).0.1
                ≡ none)))

  put_latest-Settled :
      (s : S) (answer : Returns (Resource Spec Status)) (w : KindWorld S Spec Status X)
      → live s ≡ answer
      → (put_latest r desired answer w).0 ≡ none
      → Settled
  put_latest-Settled s (existing, none) w p ok =
      (existing, inr (s, p), put_if_different-accepted existing w ok)
  put_latest-Settled s (existing, some err) w p ok = cc

  status_attempt-Settled :
      (k : ℕ) (w : KindWorld S Spec Status X)
      → (status_attempt r original desired k w).0 ≡ none
      → Settled
  unfolding status_attempt
  status_attempt-Settled zero w ok = (original, inl refl, put_if_different-accepted original w ok)
  status_attempt-Settled (suc k) w ok =
      put_latest-Settled w.server (live w.server) _ refl (simp (suc-ne-zero k) at ok)

  -- If an attempt is retried only after a conflict: however often, `updateStatus` sends only live
  -- reads of the object and writes of an object that it was handed or has read with nothing but its
  -- status replaced, by the wanted status, and only where that differs.
  pub update_status-After :
      Documented r.library
      → (w : KindWorld S Spec Status X)
      → After IsStatusRequest w.trace (update_status r original desired w).1.trace
  unfolding update_status
  update_status-After doc w =
      Attempts-After status_attempt-After (doc.retries (status_attempt r original desired) w)

  -- If an attempt is retried only after a conflict, and `updateStatus` returns nil, the wanted
  -- status is that of the object it was handed or has read, or the API server accepted a write of
  -- it over such an object.
  pub update_status-Settled :
      Documented r.library
      → (w : KindWorld S Spec Status X) → (update_status r original desired w).0 ≡ none
      → Settled
  unfolding update_status
  update_status-Settled doc w ok =
      Attempts-success status_attempt-Settled (doc.retries (status_attempt r original desired) w) ok
