-- ===== src/Generated/Clock.antt =====
-- What follows a reconciler's method never sets the clock back.
use test_concurrent_reconcil.Base.{
  ℕ, zero, suc, Bool, Option, none, some, ◌≡◌, ◌≤◌, refl, ap, EqType, nat_eq, arith,
}
use test_concurrent_reconcil.Kube.{Error, Returns, Resource, M, World}
use test_concurrent_reconcil.Generated.Types.{KindWorld, ReconcilerImpl}
use test_concurrent_reconcil.Generated.Status.{
  put_if_different, put_latest, status_attempt, update_status,
}
use test_concurrent_reconcil.Generated.Laws.{Attempts, last, again, Documented}
use test_concurrent_reconcil.Generated.Updates.{suc-ne-zero}
use test_concurrent_reconcil.Generated.Reconcile.{goes_on, synchronize_status, report, finish}

module _ {S R X : Type 0} where
  Attempts-time :
      {is_conflict : Error → Bool} {f : ℕ → M (World S R X) (Option Error)}
      → ((k : ℕ) (w : World S R X) → (f k w).1.time ≡ w.time)
      → {k : ℕ} {w w' : World S R X} {res : Option Error} → Attempts is_conflict f k w res w'
      → w.time ≤ w'.time
  Attempts-time each {k} {w} (last p) = omega (arith, ap (λ q. q.1.time) p, each k w)
  Attempts-time each {k} {w} (again e p c slept more) =
      omega (arith, ap (λ q. q.1.time) p, each k w, slept.no_earlier, Attempts-time each more)

module _ {S Spec Status X T : Type 0} ⦃e : EqType Status⦄ (r : ReconcilerImpl S Spec Status X T)
    (doc : Documented r.library) (original desired : Resource Spec Status) where
  put_if_different-time :
      (existing : Resource Spec Status) (w : KindWorld S Spec Status X)
      → (put_if_different r existing desired w).1.time ≡ w.time
  put_if_different-time existing w = ground arith

  put_latest-time :
      (answer : Returns (Resource Spec Status)) (w : KindWorld S Spec Status X)
      → (put_latest r desired answer w).1.time ≡ w.time
  put_latest-time (existing, none) w = put_if_different-time existing w
  put_latest-time (existing, some err) w = refl

  status_attempt-time :
      (k : ℕ) (w : KindWorld S Spec Status X)
      → (status_attempt r original desired k w).1.time ≡ w.time
  unfolding status_attempt
  status_attempt-time zero w = put_if_different-time original w
  status_attempt-time (suc k) w =
      simp (suc-ne-zero k)
        (put_latest-time (r.client.get desired.meta.namespace desired.meta.name w.server).0 _)

  update_status-time :
      (w : KindWorld S Spec Status X) → w.time ≤ (update_status r original desired w).1.time
  unfolding update_status
  update_status-time w =
      Attempts-time status_attempt-time (doc.retries (status_attempt r original desired) w)

  synchronize_status-time :
      (is_leader : Bool) (w : KindWorld S Spec Status X)
      → w.time ≤ (synchronize_status r is_leader original desired w).1.time
  unfolding synchronize_status
  synchronize_status-time is_leader w = ground (arith, update_status-time w)

  report-time :
      (ev : Option Error) (w : KindWorld S Spec Status X) → (report r desired ev w).1.time ≡ w.time
  unfolding report
  report-time ev w = ground arith

  pub finish-time :
      (is_leader : Bool) (ev : Option Error) (w : KindWorld S Spec Status X)
      → w.time ≤ (finish r is_leader original (goes_on desired ev) w).1.time
  unfolding finish
  finish-time is_leader ev w =
      let v = (synchronize_status r is_leader original desired w).1 in
      ground (arith, synchronize_status-time is_leader w, report-time ev v)
