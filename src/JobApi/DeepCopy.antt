-- ===== src/JobApi/DeepCopy.antt =====
-- pkg/apis/job/v1alpha1/zz_generated.deepcopy.go: a nil pointer is `none`, another one an address.
-- An object that is allocated gets its address when it is filled: the copying in between allocates
-- nothing of its type.
-- `om`, `ds` and `lm` are the library's copies of the metadata, the status and the list's metadata.
use test_concurrent_reconcil.Base.{ℕ, zero, suc, ◌+◌, Option, none, some}
use test_concurrent_reconcil.Kube.{M, Memory, store, alloc}
use test_concurrent_reconcil.JobApi.{Part, JobSpec, JobStatus, Job, Slice, JobList, Heap}

-- What `runtime.Object` holds of this package.
pub data RuntimeObject : Type 0 where
  job_object : ℕ → RuntimeObject
  list_object : ℕ → RuntimeObject

abbrev pub as_job_object : Option ℕ → Option RuntimeObject
as_job_object none = none
as_job_object (some c) = some (job_object c)

abbrev pub as_list_object : Option ℕ → Option RuntimeObject
as_list_object none = none
as_list_object (some c) = some (list_object c)

abbrev pub spec_deep_copy_into : JobSpec → JobSpec
spec_deep_copy_into spec = spec

module _ {C Om Lm Ds : Type 0} where
  abbrev pub spec_deep_copy : Option ℕ → M (Heap C Om Lm Ds) (Option ℕ)
  spec_deep_copy none h = (none, h)
  spec_deep_copy (some p) h =
      let (q, specs) = alloc (spec_deep_copy_into (h.specs.at p)) h.specs in
      (some q, record h { specs = specs })

  -- `make([]Job, n)`. The zero values that it writes are overwritten before they are read; the
  -- elements keep here what stood at their addresses.
  abbrev pub make_jobs : ℕ → M (Heap C Om Lm Ds) ℕ
  make_jobs n h = (h.jobs.size, record h { jobs = record h.jobs { size = h.jobs.size + n } })

module _ {C Ds V : Type 0} (ds : Part C Ds V) where
  abbrev pub status_deep_copy_into : JobStatus Ds → M (Memory C) (JobStatus Ds)
  status_deep_copy_into s m =
      let (status, m1) = ds.deep_copy_into s.status m in (record s { status = status }, m1)

module _ {C Om Lm Ds V : Type 0} (ds : Part C Ds V) where
  abbrev pub status_deep_copy : Option ℕ → M (Heap C Om Lm Ds) (Option ℕ)
  status_deep_copy none h = (none, h)
  status_deep_copy (some p) h =
      let (out, cells) = status_deep_copy_into ds (h.statuses.at p) h.cells in
      let (q, statuses) = alloc out h.statuses in
      (some q, record h { cells = cells; statuses = statuses })

module _ {C Om Ds OmV DsV : Type 0} (om : Part C Om OmV) (ds : Part C Ds DsV) where
  unfoldable pub job_deep_copy_into : Job Om Ds → M (Memory C) (Job Om Ds)
  job_deep_copy_into j m =
      let (object_meta, m1) = om.deep_copy_into j.object_meta m in
      let (status, m2) = status_deep_copy_into ds j.status m1 in
      (record j { object_meta = object_meta; spec = j.spec; status = status }, m2)

module _ {C Om Lm Ds OmV DsV : Type 0} (om : Part C Om OmV) (ds : Part C Ds DsV) where
  unfoldable pub job_deep_copy : Option ℕ → M (Heap C Om Lm Ds) (Option ℕ)
  unfolding job_deep_copy_into
  job_deep_copy none h = (none, h)
  job_deep_copy (some p) h =
      let (out, cells) = job_deep_copy_into om ds (h.jobs.at p) h.cells in
      let (q, jobs) = alloc out h.jobs in (some q, record h { cells = cells; jobs = jobs })

  unfoldable pub job_deep_copy_object : Option ℕ → M (Heap C Om Lm Ds) (Option RuntimeObject)
  unfolding job_deep_copy
  job_deep_copy_object p h = let (c, h1) = job_deep_copy p h in (as_job_object c, h1)

  -- One round: `(*in)[i].DeepCopyInto(&(*out)[i])`.
  unfoldable pub copy_item : ℕ → ℕ → Heap C Om Lm Ds → Heap C Om Lm Ds
  unfolding job_deep_copy_into
  copy_item src dst h =
      let (out, cells) = job_deep_copy_into om ds (h.jobs.at src) h.cells in
      record h { cells = cells; jobs = store dst out h.jobs }

  unfoldable pub copy_items : ℕ → ℕ → ℕ → Heap C Om Lm Ds → Heap C Om Lm Ds
  unfolding copy_item
  copy_items zero src dst h = h
  copy_items (suc n) src dst h = copy_items n (suc src) (suc dst) (copy_item src dst h)

  unfoldable pub copy_slice : Option Slice → M (Heap C Om Lm Ds) (Option Slice)
  unfolding copy_items
  copy_slice none h = (none, h)
  copy_slice (some items) h =
      let (pointer, h1) = make_jobs items.length h in
      (
        some (record { pointer = pointer; length = items.length }),
        copy_items items.length items.pointer pointer h1,
      )

module _ {C Om Lm Ds OmV LmV DsV : Type 0} (om : Part C Om OmV) (ds : Part C Ds DsV)
    (lm : Part C Lm LmV) where
  unfoldable pub list_deep_copy_into : JobList Lm → M (Heap C Om Lm Ds) (JobList Lm)
  unfolding copy_slice
  list_deep_copy_into l h =
      let (list_meta, cells) = lm.deep_copy_into l.list_meta h.cells in
      let (items, h1) = copy_slice om ds l.items (record h { cells = cells }) in
      (record l { list_meta = list_meta; items = items }, h1)

  unfoldable pub list_deep_copy : Option ℕ → M (Heap C Om Lm Ds) (Option ℕ)
  unfolding list_deep_copy_into
  list_deep_copy none h = (none, h)
  list_deep_copy (some p) h =
      let (out, h1) = list_deep_copy_into (h.lists.at p) h in
      let (q, lists) = alloc out h1.lists in (some q, record h1 { lists = lists })

  unfoldable pub list_deep_copy_object : Option ℕ → M (Heap C Om Lm Ds) (Option RuntimeObject)
  unfolding list_deep_copy
  list_deep_copy_object p h = let (c, h1) = list_deep_copy p h in (as_list_object c, h1)
