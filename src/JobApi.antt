-- ===== src/JobApi.antt =====
-- The API types of Jobs as Go keeps them in memory (pkg/apis/job/v1alpha1/job_types.go), where a
-- copy may share memory with what it was copied from.
pub mod DeepCopy
pub mod Methods
pub mod Parts
pub mod JobPart
pub mod Copies
pub mod Lists
pub mod Reach
pub mod Independent
use test_concurrent_reconcil.Base.{ℕ, Bool, String, Option}
use test_concurrent_reconcil.Kube.{M, Memory}

-- What the library's structs are to this code: `metav1.ObjectMeta`, `metav1.ListMeta` and
-- `duckv1.Status` hold pointers, slices and maps, whose targets are the cells `C`. `view` is the
-- value with all that it points at, `reaches` tells which cells it points at.
pub record Part (C P V : Type 0) : Type 0 where
  pub view : P → (ℕ → C) → V
  pub reaches : P → (ℕ → C) → ℕ → Bool
  pub deep_copy_into : P → M (Memory C) P

pub record TypeMeta : Type 0 where
  pub kind : String
  pub api_version : String

pub record JobSpec : Type 0 where
  pub dummy : String

pub record JobStatus (Ds : Type 0) : Type 0 where
  pub status : Ds
  pub job_run_id : String

pub record Job (Om Ds : Type 0) : Type 0 where
  pub type_meta : TypeMeta
  pub object_meta : Om
  pub spec : JobSpec
  pub status : JobStatus Ds

-- A slice that is not nil: its first element's address and its length.
pub record Slice : Type 0 where
  pub pointer : ℕ
  pub length : ℕ

pub record JobList (Lm : Type 0) : Type 0 where
  pub type_meta : TypeMeta
  pub list_meta : Lm
  pub items : Option Slice

-- The memory: the cells of the library's structs, and the objects of each type of this package. The
-- elements of the slices of Jobs stand with the Jobs.
pub record Heap (C Om Lm Ds : Type 0) : Type 0 where
  pub cells : Memory C
  pub jobs : Memory (Job Om Ds)
  pub lists : Memory (JobList Lm)
  pub specs : Memory JobSpec
  pub statuses : Memory (JobStatus Ds)
