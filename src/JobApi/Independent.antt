-- ===== src/JobApi/Independent.antt =====
-- A copy of a list of Jobs shares no memory with the list.
use test_concurrent_reconcil.Base.{ℕ, ◌≤◌, ◌≡◌, refl, ap, ◌∙◌, some, arith}
use test_concurrent_reconcil.Kube.{written, written_same, written_other}
use test_concurrent_reconcil.JobApi.{Part, JobList, Heap}
use test_concurrent_reconcil.JobApi.DeepCopy.{copy_slice, list_deep_copy_into, list_deep_copy}
use test_concurrent_reconcil.JobApi.Parts.{Extends, Documented, view-stays, IsFresh-stays}
use test_concurrent_reconcil.JobApi.Reach.{
  Kept, list_value-local, Holds-below, Kept-refl, held_below, slice_below, list_view-Kept,
}
use test_concurrent_reconcil.JobApi.Copies.{JobIsLive-stays}
use test_concurrent_reconcil.JobApi.Lists.{
  InSlice, slice_view, CopiedSlice, copy_slice-CopiedSlice, list_view, ListIsLive, Holds,
  Holds-fresh, OnlyThrough,
}

module _ {C Om Lm Ds OmV LmV DsV : Type 0} (om : Part C Om OmV) (ds : Part C Ds DsV)
    (lm : Part C Lm LmV) where
  record CopiedList (p q : ℕ) (h h' : Heap C Om Lm Ds) : Type 0 where
    view : list_view om ds lm h' q ≡ list_view om ds lm h p
    kept : Kept om ds lm h h'
    fresh_jobs : (k : ℕ) → InSlice (h'.lists.at q).items k → h.jobs.size ≤ k
    fresh_cells : (a : ℕ) → Holds om ds lm h' (h'.lists.at q) a → h.cells.size ≤ a

  module _ (dom : Documented om) (dds : Documented ds) (dlm : Documented lm) where
    module _ (h : Heap C Om Lm Ds) (p : ℕ) (live : ListIsLive om ds lm h p) where
      abbrev original : JobList Lm
      original = h.lists.at p

      -- The heap with the copy of the list's metadata, and that with the copy of the items.
      abbrev with_meta : Heap C Om Lm Ds
      with_meta = record h { cells = (lm.deep_copy_into original.list_meta h.cells).1 }

      abbrev with_items : Heap C Om Lm Ds
      with_items = (copy_slice om ds original.items with_meta).1

      abbrev out : JobList Lm
      out = (list_deep_copy_into om ds lm original h).0

      meta_extends : Extends h.cells with_meta.cells
      meta_extends = dlm.extends original.list_meta h.cells

      items_copied :
          CopiedSlice om ds original.items
            (copy_slice om ds original.items with_meta).0
            with_meta
            with_items
      items_copied =
          copy_slice-CopiedSlice om ds dom dds original.items with_meta live.bounded (λ k inside.
            JobIsLive-stays om ds dom dds h with_meta k (live.items k inside) meta_extends refl)

      new_address : with_items.lists.size ≡ h.lists.size
      new_address = ap (λ m. m.size) items_copied.lists

      stored : written with_items.lists.size out with_items.lists.at h.lists.size ≡ out
      stored = rw new_address (written_same h.lists.size out with_items.lists.at)

      slice_before : slice_view om ds with_meta original.items ≡ slice_view om ds h original.items
      slice_before =
          ap (λ v. v.2)
            (list_value-local om ds lm dom dds dlm h with_meta original
              (λ a held. meta_extends.keeps a (
                Holds-below om ds lm dom dds dlm h h p live (Kept-refl om ds lm dom dds dlm h) a
                  held))
              (λ k inside. refl))

      list_deep_copy-CopiedList :
          let (q, h') = list_deep_copy om ds lm (some p) h in
          (q ≡ some h.lists.size) × CopiedList p h.lists.size h h'
      unfolding list_deep_copy list_deep_copy_into
      list_deep_copy-CopiedList =
          let r = items_copied in
          let meta_live = dlm.live original.list_meta h.cells live.meta in
          (
            ap some new_address,
            record {
              view = rw stored (
                  cc (
                    view-stays lm dlm meta_live r.extends,
                    dlm.same original.list_meta h.cells live.meta,
                    r.view,
                    slice_before,
                  ));
              kept = record {
                cells = λ a below.
                    r.extends.keeps a (omega (arith, below, meta_extends.grows))
                    ∙ meta_extends.keeps a below;
                jobs = r.others;
                lists = λ q below.
                    written_other with_items.lists.size q out with_items.lists.at
                      (omega (arith, new_address, below))
                    ∙ ap (λ m. m.at q) r.lists;
              };
              fresh_jobs = λ k. rw stored (r.fresh k);
              fresh_cells = λ a. rw stored (
                  Holds-fresh om ds lm h.cells.size (list_deep_copy om ds lm (some p) h).1 out
                    (IsFresh-stays lm dlm meta_live r.extends
                      (dlm.fresh original.list_meta h.cells live.meta))
                    (λ k inside b held.
                      omega (arith, r.fresh_cells k inside b held, meta_extends.grows))
                    a);
            },
          )

    -- `DeepCopy` of a list of Jobs that is allocated with all that it points at, where the library
    -- copies metadata and statuses as it documents: it returns a new pointer, and the list there
    -- has the same value as the one that was copied (a nil slice of items stays nil). Whatever is
    -- then written to memory that is reached from the copy, the original keeps its value, and
    -- whatever is written to memory that is reached from the original, the copy does.
    pub list_deep_copy-independent :
        (h v w : Heap C Om Lm Ds) (p : ℕ)
        → ListIsLive om ds lm h p
        → OnlyThrough om ds lm h.lists.size (list_deep_copy om ds lm (some p) h).1 w
        → OnlyThrough om ds lm p (list_deep_copy om ds lm (some p) h).1 v
        → let (q, h') = list_deep_copy om ds lm (some p) h in
          (q ≡ some h.lists.size)
          × (list_view om ds lm h' h.lists.size ≡ list_view om ds lm h p)
          × (list_view om ds lm w p ≡ list_view om ds lm h p)
          × (list_view om ds lm v h.lists.size ≡ list_view om ds lm h p)
    list_deep_copy-independent h v w p live through_copy through_original =
        let h' = (list_deep_copy om ds lm (some p) h).1 in
        let (new, c) = list_deep_copy-CopiedList h p live in
        let kept = c.kept in
        let original_kept : Kept om ds lm h w = record {
          cells = λ a below.
              through_copy.cells a (λ held. omega (arith, c.fresh_cells a held, below))
              ∙ kept.cells a below;
          jobs = λ k below.
              through_copy.jobs k (λ held. omega (arith, c.fresh_jobs k held, below))
              ∙ kept.jobs k below;
          lists = λ r below. through_copy.lists r (omega (arith, below)) ∙ kept.lists r below;
        } in
        let copy_kept =
          list_value-local om ds lm dom dds dlm h' v (h'.lists.at h.lists.size)
            (λ a held. through_original.cells a (λ shared. omega (
              arith,
              c.fresh_cells a held,
              held_below om ds lm dom dds dlm h h' p live kept a shared,
            )))
            (λ k inside. through_original.jobs k (λ shared. omega (
              arith,
              c.fresh_jobs k inside,
              slice_below om ds lm dom dds dlm h h' p live kept k shared,
            ))) in
        (
          new,
          c.view,
          list_view-Kept om ds lm dom dds dlm h w p live original_kept,
          rw (through_original.lists h.lists.size (omega (arith, live.allocated)))
              (copy_kept ∙ c.view),
        )
