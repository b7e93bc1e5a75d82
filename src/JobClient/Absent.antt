-- ===== src/JobClient/Absent.antt =====
-- What the clients of Jobs give: the items that the fake client lists, and a reconciler over the
-- lister where the cache lacks a Job.
use Prim.Native.String.{◌++◌ as string_append}
use test_concurrent_reconcil.Base.{
  String, false, none, some, List, [], ◌∷◌, ◌++◌, if◌then◌else◌, ◌≡◌, refl, ◌∙◌, ap, EqType,
}
use test_concurrent_reconcil.Kube.{not_found, Resource}
use test_concurrent_reconcil.Generated.Types.{KindWorld, ReconcilerImpl}
use test_concurrent_reconcil.Generated.State.{is_not_leader_nor_observer}
use test_concurrent_reconcil.Generated.Reconcile.{reconcile}
use test_concurrent_reconcil.Generated.Laws.{Documented}
use test_concurrent_reconcil.Generated.Outcome.{state_in, gone, reconcile-idle}
use test_concurrent_reconcil.JobClient.Fake.{Fake}
use test_concurrent_reconcil.JobClient.Lister.{Indexer, get_namespace_job}

module _ {S J LM W Sel : Type 0} where
  -- The items that match, in their order.
  abbrev pub matching : Fake S J LM W Sel → Sel → List J → List J
  matching f label [] = []
  matching f label (item ∷ items) =
      let rest = matching f label items in if f.matches label item then item ∷ rest else rest

module _ {S Spec Status X T Sel : Type 0} ⦃e : EqType Status⦄
    (r : ReconcilerImpl S Spec Status X T) where
  -- If the library does as it documents: over the lister of Jobs, a valid key with a role whose Job
  -- the indexer does not hold is done: nothing is sent or recorded, and nil is returned.
  pub reconcile-absent :
      Documented r.library
      → (no_job : Resource Spec Status) (indexer : Indexer S (Resource Spec Status) Sel)
        (key namespace name : String) (w : KindWorld S Spec Status X) (s : S)
      → ((namespace name : String) (s : S)
          → r.library.lister_get namespace name s
            ≡ get_namespace_job no_job indexer namespace name s)
      → r.library.split_meta_namespace_key key ≡ some (namespace, name)
      → is_not_leader_nor_observer (state_in r w key (namespace, name)) ≡ false
      → indexer.get_by_key
          (string_append namespace (string_append "/" name))
          (r.library.is_leader_for (namespace, name) w.server).1
        ≡ ((none, none), s)
      → ((reconcile r key w).0 ≡ none) × ((reconcile r key w).1.trace ≡ w.trace)
  unfolding get_namespace_job
  reconcile-absent doc no_job indexer key namespace name w s lists valid busy absent =
      reconcile-idle r doc key w none (
        gone (namespace, name) no_job (not_found "custom.tekton.dev" "job" name) valid busy
          (ap (λ p. p.0) (lists namespace name _) ∙ simp absent refl)
          (doc.is_not_found-not_found "custom.tekton.dev" "job" name) refl)
