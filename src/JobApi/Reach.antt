-- ===== src/JobApi/Reach.antt =====
-- A list's value, and what it holds, stay as they are while what it reaches does.
use test_concurrent_reconcil.Base.{ℕ, ◌<◌, ◌≡◌, refl, sym, ap, ◌∙◌, true, Option, none, some, arith}
use test_concurrent_reconcil.JobApi.{Part, JobList, Slice, Heap}
use test_concurrent_reconcil.JobApi.Parts.{Documented}
use test_concurrent_reconcil.JobApi.JobPart.{job_part, job-Documented}
use test_concurrent_reconcil.JobApi.Copies.{job_view}
use test_concurrent_reconcil.JobApi.Lists.{
  elements-agree, InSlice, IsBounded, slice_view, list_value, list_view, ListIsLive, Holds, by_meta,
  by_item,
}

module _ {C Om Lm Ds OmV LmV DsV : Type 0} (om : Part C Om OmV) (ds : Part C Ds DsV)
    (lm : Part C Lm LmV) where
  -- What had been allocated in `h` is the same in `w`.
  pub record Kept (h w : Heap C Om Lm Ds) : Type 0 where
    pub cells : (a : ℕ) → a < h.cells.size → w.cells.at a ≡ h.cells.at a
    pub jobs : (k : ℕ) → k < h.jobs.size → w.jobs.at k ≡ h.jobs.at k
    pub lists : (r : ℕ) → r < h.lists.size → w.lists.at r ≡ h.lists.at r

  module _ (dom : Documented om) (dds : Documented ds) (dlm : Documented lm) where
    -- A value depends only on what is reached.
    pub list_value-local :
        (h w : Heap C Om Lm Ds) (l : JobList Lm)
        → ((a : ℕ) → Holds om ds lm h l a → w.cells.at a ≡ h.cells.at a)
        → ((k : ℕ) → InSlice l.items k → w.jobs.at k ≡ h.jobs.at k)
        → list_value om ds lm w l ≡ list_value om ds lm h l
    list_value-local h w l cells jobs = cc (
      dlm.local l.list_meta h.cells.at w.cells.at (λ a r. cells a (by_meta r)),
      slice_local l.items (λ k inside a r. cells a (by_item k inside r)) jobs,
    )
      where
        slice_local :
            (items : Option Slice)
            → ((k : ℕ)
                → InSlice items k
                → (a : ℕ) → (job_part om ds).reaches (h.jobs.at k) h.cells.at a ≡ true
                → w.cells.at a ≡ h.cells.at a)
            → ((k : ℕ) → InSlice items k → w.jobs.at k ≡ h.jobs.at k)
            → slice_view om ds w items ≡ slice_view om ds h items
        slice_local none cells jobs = refl
        slice_local (some s) cells jobs = ap some (
            elements-agree s.length s.pointer s.pointer (job_view om ds h) (job_view om ds w)
              (λ i d low high at.
                let same : d ≡ i = omega (arith, at) in
                rw (same, jobs i (low, high))
                  ((job-Documented om ds dom dds).local (h.jobs.at i) h.cells.at w.cells.at
                    (cells i (low, high)))))

    InSlice-below :
        (items : Option Slice) (size k : ℕ) → IsBounded items size → InSlice items k → k < size
    InSlice-below none size k bounded absent = absurd absent
    InSlice-below (some s) size k bounded (low, high) = omega (arith, high, bounded)

    -- A list that was live holds no more than it held.
    pub Holds-below :
        (h w : Heap C Om Lm Ds) (p : ℕ)
        → ListIsLive om ds lm h p
        → Kept h w
        → (a : ℕ) → Holds om ds lm w (h.lists.at p) a
        → a < h.cells.size
    Holds-below h w p live kept a (by_meta r) = live.meta a (
        sym (
          dlm.reaches_local (h.lists.at p).list_meta h.cells.at w.cells.at
            (λ b q. kept.cells b (live.meta b q)) a)
        ∙ r)
    Holds-below h w p live kept a (by_item k inside r) =
        let same = kept.jobs k (InSlice-below (h.lists.at p).items _ k live.bounded inside) in
        live.items k inside a (
          sym (
            (job-Documented om ds dom dds).reaches_local (h.jobs.at k) h.cells.at w.cells.at
              (λ b q. kept.cells b (live.items k inside b q)) a)
          ∙ sym (ap (λ j. (job_part om ds).reaches j w.cells.at a) same)
          ∙ r)

    pub Kept-refl : (h : Heap C Om Lm Ds) → Kept h h
    Kept-refl h = record { cells = λ a q. refl; jobs = λ a q. refl; lists = λ a q. refl }

    -- The same of the list as it stands at its address.
    pub held_below :
        (h w : Heap C Om Lm Ds) (p : ℕ)
        → ListIsLive om ds lm h p
        → Kept h w
        → (a : ℕ) → Holds om ds lm w (w.lists.at p) a
        → a < h.cells.size
    held_below h w p live kept a = rw (kept.lists p live.allocated) (Holds-below h w p live kept a)

    pub slice_below :
        (h w : Heap C Om Lm Ds) (p : ℕ)
        → ListIsLive om ds lm h p
        → Kept h w
        → (k : ℕ) → InSlice (w.lists.at p).items k
        → k < h.jobs.size
    slice_below h w p live kept k =
        rw (kept.lists p live.allocated)
          (InSlice-below (h.lists.at p).items h.jobs.size k live.bounded)

    pub list_view-Kept :
        (h w : Heap C Om Lm Ds) (p : ℕ)
        → ListIsLive om ds lm h p
        → Kept h w
        → list_view om ds lm w p ≡ list_view om ds lm h p
    list_view-Kept h w p live kept = rw (kept.lists p live.allocated) (
        list_value-local h w (h.lists.at p)
          (λ a held. kept.cells a (Holds-below h h p live (Kept-refl h) a held))
          (λ k inside. kept.jobs k (InSlice-below (h.lists.at p).items _ k live.bounded inside)))
