-- ===== src/Generated/Stored.antt =====
-- What the API server stores after `updateStatus`, if it stores what it accepts.
use mathlib.Core.Path.{subst}
use test_concurrent_reconcil.Base.{
  ℕ, String, zero, suc, Bool, Option, none, some, ◌≡◌, ◌≢◌, refl, ap, sym, ◌∙◌, ◌==◌, EqType, inl,
  inr, Bool-cases,
}
use test_concurrent_reconcil.Kube.{Error, Returns, Resource, M, World}
use test_concurrent_reconcil.Generated.Types.{KindWorld, Client, ReconcilerImpl}
use test_concurrent_reconcil.Generated.Status.{
  put_if_different, put_latest, status_attempt, update_status,
}
use test_concurrent_reconcil.Generated.Laws.{Attempts, last, again, Documented}
use test_concurrent_reconcil.Generated.Updates.{suc-ne-zero}

module _ {Spec Status : Type 0} where
  abbrev pub HasNames : String × String → Resource Spec Status → Type 0
  HasNames names o = (o.meta.namespace ≡ names.0) × (o.meta.name ≡ names.1)

module _ {S Spec Status : Type 0} where
  -- The API server stores what the encoding keeps of the status of the object of these names that
  -- it accepts, and a live read answers with the stored one, of which the encoding keeps
  -- everything. What it stores after an error is left open: others may have written.
  pub record IsStore (client : Client S (Resource Spec Status)) (names : String × String)
      (kept : Status → Status) (status_at : S → Status) : Type 0 where
    pub accepted :
        (o : Resource Spec Status)
        → HasNames names o
        → (s : S) → (client.update_status o s).0.1 ≡ none
        → status_at (client.update_status o s).1 ≡ kept o.status
    pub read_back :
        (s : S) (o : Resource Spec Status)
        → (client.get names.0 names.1 s).0 ≡ (o, none)
        → HasNames names o
          × (status_at (client.get names.0 names.1 s).1 ≡ o.status)
          × (kept o.status ≡ o.status)

-- What holds after each attempt that succeeds holds after the retried action if it succeeds.
Attempts-success_at :
    {S R X : Type 0} (Q : World S R X → Type 0) {is_conflict : Error → Bool}
    {f : ℕ → M (World S R X) (Option Error)}
    → ((k : ℕ) (w : World S R X) → (f k w).0 ≡ none → Q (f k w).1)
    → {k : ℕ} {w w' : World S R X} {res : Option Error} → Attempts is_conflict f k w res w'
    → res ≡ none
    → Q w'
Attempts-success_at Q each {k} {w} (last p) ok =
    subst Q (ap (λ q. q.1) p) (each k w (ap (λ q. q.0) p ∙ ok))
Attempts-success_at Q each (again e p c slept more) ok = Attempts-success_at Q each more ok

module _ {S Spec Status X T : Type 0} ⦃e : EqType Status⦄ (r : ReconcilerImpl S Spec Status X T)
    (original desired : Resource Spec Status) (kept : Status → Status) (status_at : S → Status)
    (store : IsStore r.client (desired.meta.namespace, desired.meta.name) kept status_at)
    (named : HasNames (desired.meta.namespace, desired.meta.name) original)
    (differ : original.status ≢ desired.status) where
  abbrev names : String × String
  names = (desired.meta.namespace, desired.meta.name)

  abbrev Stands : KindWorld S Spec Status X → Type 0
  Stands w = status_at w.server ≡ kept desired.status

  -- Where the object's status stands already, nothing is sent; else it is accepted.
  put_if_different-Stands :
      (existing : Resource Spec Status) (w : KindWorld S Spec Status X)
      → HasNames names existing
      → (existing.status ≡ desired.status → Stands w)
      → (put_if_different r existing desired w).0 ≡ none
      → Stands (put_if_different r existing desired w).1
  put_if_different-Stands existing w has stands ok =
      elim (Bool-cases (existing.status == desired.status)) [
        | inl same ↦ simp same (stands ((e.equals_iff _ _).0 same))
        | inr other ↦ simp other (
            store.accepted (record existing { status = desired.status }) has w.server
              (simp other at ok))
      ]

  put_latest-Stands :
      (s : S) (answer : Returns (Resource Spec Status)) (w : KindWorld S Spec Status X)
      → (r.client.get desired.meta.namespace desired.meta.name s).0 ≡ answer
      → w.server ≡ (r.client.get desired.meta.namespace desired.meta.name s).1
      → (put_latest r desired answer w).0 ≡ none
      → Stands (put_latest r desired answer w).1
  put_latest-Stands s (existing, none) w p at_read ok =
      let (has, stored, encoded) = store.read_back s existing p in
      put_if_different-Stands existing w has
        (λ same. ap status_at at_read ∙ stored ∙ sym encoded ∙ ap kept same) ok
  put_latest-Stands s (existing, some err) w p at_read ok = cc

  status_attempt-Stands :
      (k : ℕ) (w : KindWorld S Spec Status X)
      → (status_attempt r original desired k w).0 ≡ none
      → Stands (status_attempt r original desired k w).1
  unfolding status_attempt
  status_attempt-Stands zero w ok =
      put_if_different-Stands original w named (λ same. absurd (differ same)) ok
  status_attempt-Stands (suc k) w ok = simp (suc-ne-zero k) (
      put_latest-Stands w.server (r.client.get desired.meta.namespace desired.meta.name w.server).0
        _ refl refl (simp (suc-ne-zero k) at ok))

  -- `updateStatus` with a status that the object it is handed lacks, where an attempt is retried
  -- only after a conflict: if it returns nil, the API server then stores that status as encoded.
  pub update_status-Stands :
      Documented r.library
      → (w : KindWorld S Spec Status X) → (update_status r original desired w).0 ≡ none
      → status_at (update_status r original desired w).1.server ≡ kept desired.status
  unfolding update_status
  update_status-Stands doc w ok =
      Attempts-success_at Stands status_attempt-Stands
        (doc.retries (status_attempt r original desired) w) ok
