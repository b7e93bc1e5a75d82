-- ===== src/JobApi/Copies.antt =====
-- The copies of a slice of Jobs and of a list.
use native.Mathlib.Decide.{dec_lt}
use test_concurrent_reconcil.Base.{ℕ, zero, suc, ◌+◌, ◌≤◌, ◌<◌, ◌≡◌, refl, ◌∙◌, String, arith}
use test_concurrent_reconcil.Kube.{written_same, written_other}
use test_concurrent_reconcil.JobApi.{Part, TypeMeta, JobSpec, Heap}
use test_concurrent_reconcil.JobApi.DeepCopy.{job_deep_copy_into, copy_item, copy_items}
use test_concurrent_reconcil.JobApi.Parts.{
  Extends, Extends-refl, Extends-trans, IsLive, IsFresh, Documented, view-stays, IsLive-stays,
  IsFresh-stays,
}
use test_concurrent_reconcil.JobApi.JobPart.{job_part, job-Documented}

module _ {C Om Lm Ds OmV DsV : Type 0} (om : Part C Om OmV) (ds : Part C Ds DsV) where
  abbrev pub job_view : Heap C Om Lm Ds → ℕ → TypeMeta × OmV × JobSpec × DsV × String
  job_view h p = (job_part om ds).view (h.jobs.at p) h.cells.at

  abbrev pub JobIsLive : Heap C Om Lm Ds → ℕ → Type 0
  JobIsLive h p = IsLive (job_part om ds) (h.jobs.at p) h.cells

  -- The Job at `d` in the later heap is a copy of the one at `s` in the earlier one, and points at
  -- cells from `base` on.
  pub record Copied (base s d : ℕ) (h h' : Heap C Om Lm Ds) : Type 0 where
    pub view : job_view h' d ≡ job_view h s
    pub live : JobIsLive h' d
    pub fresh : IsFresh (job_part om ds) base (h'.jobs.at d) h'.cells

  pub record CopiedItems (n src dst : ℕ) (h h' : Heap C Om Lm Ds) : Type 0 where
    pub extends : Extends h.cells h'.cells
    pub others : (k : ℕ) → k < dst → h'.jobs.at k ≡ h.jobs.at k
    pub size : h'.jobs.size ≡ h.jobs.size
    pub lists : h'.lists ≡ h.lists
    pub copied :
        (s d : ℕ) → src ≤ s → s < src + n → d + src ≡ dst + s → Copied h.cells.size s d h h'

  module _ (dom : Documented om) (dds : Documented ds) where
    pub job_view-stays :
        (h h' : Heap C Om Lm Ds) (p : ℕ)
        → JobIsLive h p
        → Extends h.cells h'.cells
        → h'.jobs.at p ≡ h.jobs.at p
        → job_view h' p ≡ job_view h p
    job_view-stays h h' p live e same =
        rw same (view-stays (job_part om ds) (job-Documented om ds dom dds) live e)

    pub JobIsLive-stays :
        (h h' : Heap C Om Lm Ds) (p : ℕ)
        → JobIsLive h p
        → Extends h.cells h'.cells
        → h'.jobs.at p ≡ h.jobs.at p
        → JobIsLive h' p
    JobIsLive-stays h h' p live e same =
        rw same
          (IsLive-stays (job_part om ds) (job-Documented om ds dom dds) {p = h.jobs.at p} live e)

    copy_item-Copied :
        (src dst : ℕ) (h : Heap C Om Lm Ds)
        → JobIsLive h src
        → Copied h.cells.size src dst h (copy_item om ds src dst h)
    unfolding copy_item
    copy_item-Copied src dst h live =
        let doc = job-Documented om ds dom dds in
        let out = (job_deep_copy_into om ds (h.jobs.at src) h.cells).0 in
        let here = written_same dst out h.jobs.at in
        record {
          view = rw here (doc.same (h.jobs.at src) h.cells live);
          live = rw here (doc.live (h.jobs.at src) h.cells live);
          fresh = rw here (doc.fresh (h.jobs.at src) h.cells live);
        }

    Copied-stays :
        (base s d : ℕ) (h h1 h' : Heap C Om Lm Ds)
        → Copied base s d h h1
        → Extends h1.cells h'.cells
        → h'.jobs.at d ≡ h1.jobs.at d
        → Copied base s d h h'
    Copied-stays base s d h h1 h' c e same = record {
      view = job_view-stays h1 h' d c.live e same ∙ c.view;
      live = JobIsLive-stays h1 h' d c.live e same;
      fresh = rw same (
          IsFresh-stays (job_part om ds) (job-Documented om ds dom dds) {p = h1.jobs.at d} c.live e
            c.fresh);
    }

    Copied-before :
        (base base' s d : ℕ) (h h1 h' : Heap C Om Lm Ds)
        → Copied base' s d h1 h'
        → base ≤ base'
        → job_view h1 s ≡ job_view h s
        → Copied base s d h h'
    Copied-before base base' s d h h1 h' c below same = record {
      view = c.view ∙ same;
      live = c.live;
      fresh = λ a r. omega (arith, c.fresh a r, below);
    }

    copy_item-CopiedItems :
        (src dst : ℕ) (h : Heap C Om Lm Ds)
        → JobIsLive h src
        → CopiedItems 1 src dst h (copy_item om ds src dst h)
    unfolding copy_item
    copy_item-CopiedItems src dst h live = record {
      extends = (job-Documented om ds dom dds).extends (h.jobs.at src) h.cells;
      others = λ k below. written_other dst k _ h.jobs.at (omega (arith, below));
      size = refl;
      lists = refl;
      copied = λ s d low high at.
          let here_s : s ≡ src = omega (arith, low, high) in
          let here_d : d ≡ dst = omega (arith, at, here_s) in
          rw (here_s, here_d) (copy_item-Copied src dst h live);
    }

    pub copy_items-CopiedItems :
        (n src dst : ℕ) (h : Heap C Om Lm Ds)
        → ((k : ℕ) → src ≤ k → k < src + n → JobIsLive h k)
        → src + n ≤ dst
        → CopiedItems n src dst h (copy_items om ds n src dst h)
    unfolding copy_items
    copy_items-CopiedItems zero src dst h live apart = record {
      extends = Extends-refl h.cells;
      others = λ k below. refl;
      size = refl;
      lists = refl;
      copied = λ s d low high at. absurd (omega (arith, low, high));
    }
    copy_items-CopiedItems (suc n) src dst h live apart =
        let h1 = copy_item om ds src dst h in
        let h' = copy_items om ds n (suc src) (suc dst) h1 in
        let first = copy_item-CopiedItems src dst h (live src (omega arith) (omega arith)) in
        let same =
          λ (k : ℕ) (high : k < src + suc n). first.others k (omega (arith, apart, high)) in
        let live1 = λ (k : ℕ) (low : suc src ≤ k) (high : k < suc src + n).
          JobIsLive-stays h h1 k (live k (omega (arith, low)) (omega (arith, high))) first.extends
            (same k (omega (arith, high))) in
        let rest = copy_items-CopiedItems n (suc src) (suc dst) h1 live1 (omega (arith, apart)) in
        record {
          extends = Extends-trans first.extends rest.extends;
          others = λ k below. rest.others k (omega (arith, below)) ∙ first.others k below;
          size = rest.size ∙ first.size;
          lists = rest.lists ∙ first.lists;
          copied = λ s d low high at. elim (dec_lt src s) [
            | yes later ↦
                Copied-before h.cells.size h1.cells.size s d h h1 h'
                  (rest.copied s d later (omega (arith, high)) (omega (arith, at)))
                  first.extends.grows
                  (job_view-stays h h1 s (live s low high) first.extends (same s high))
            | no here ↦
                Copied-stays h.cells.size s d h h1 h'
                  (first.copied s d low (omega (arith, here)) at) rest.extends
                  (rest.others d (omega (arith, here, low, at)))
          ];
        }
