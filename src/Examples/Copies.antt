-- ===== src/Examples/Copies.antt =====
-- The theorem on copies of lists, where each of the library's structs is a pointer to one number.
use native.Mathlib.Decide.{ℕ_discrete}
use test_concurrent_reconcil.Base.{ℕ, suc, ◌≡◌, refl, arith, some, ◌==◌, nat_eq}
use test_concurrent_reconcil.Kube.{alloc, store}
use test_concurrent_reconcil.JobApi.{Part, TypeMeta, Job, Heap}
use test_concurrent_reconcil.JobApi.DeepCopy.{
  job_deep_copy_into, copy_item, copy_items, copy_slice, list_deep_copy_into, list_deep_copy,
}
use test_concurrent_reconcil.JobApi.Parts.{Documented}
use test_concurrent_reconcil.JobApi.Lists.{list_view, ListIsLive, OnlyThrough}
use test_concurrent_reconcil.JobApi.Independent.{list_deep_copy-independent}

abbrev pointer : Part ℕ ℕ ℕ
pointer = record {
  view = λ p f. f p;
  reaches = λ p f a. p == a;
  deep_copy_into = λ p m. alloc (m.at p) m;
}

pointer-Documented : Documented pointer
pointer-Documented = record {
  same = λ p m live. ground arith;
  live = λ p m live a h. ground (arith, nat_eq.equals_iff m.size a);
  fresh = λ p m live a h. ground (arith, nat_eq.equals_iff m.size a);
  extends = λ p m. record { grows = omega arith; keeps = λ a h. ground arith };
  local = λ p f g h. h p (ground (arith, nat_eq.equals_iff p p));
  reaches_local = λ p f g h a. refl;
}

abbrev types : TypeMeta
types = record { kind = "Job"; api_version = "v1" }

abbrev job_at : ℕ → Job ℕ ℕ
job_at n = record {
  type_meta = types;
  object_meta = n;
  spec = record { dummy = "d" };
  status = record { status = suc n; job_run_id = "" };
}

-- A list of two Jobs.
abbrev heap : Heap ℕ ℕ ℕ ℕ
heap = record {
  cells = record { at = λ a. a; size = 9 };
  jobs = record { at = job_at; size = 2 };
  lists = record {
    at = λ p. record {
      type_meta = types;
      list_meta = 5;
      items = some (record { pointer = 0; length = 2 });
    };
    size = 1;
  };
  specs = record { at = λ p. record { dummy = "" }; size = 0 };
  statuses = record { at = λ p. record { status = 0; job_run_id = "" }; size = 0 };
}

heap-ListIsLive : ListIsLive pointer pointer pointer heap 0
heap-ListIsLive = record {
  allocated = omega arith;
  meta = λ a h. ground (arith, nat_eq.equals_iff 5 a);
  bounded = omega arith;
  items = λ k inside a h. ground (arith, nat_eq.equals_iff k a, nat_eq.equals_iff (suc k) a);
}

abbrev copied : Heap ℕ ℕ ℕ ℕ
copied = (list_deep_copy pointer pointer pointer (some 0) heap).1

-- The copy's first Job is written to.
abbrev changed : Heap ℕ ℕ ℕ ℕ
changed = record copied { jobs = store 2 (job_at 7) copied.jobs }

changed-OnlyThrough : OnlyThrough pointer pointer pointer 1 copied changed
unfolding list_deep_copy list_deep_copy_into copy_slice copy_items copy_item job_deep_copy_into
    ℕ_discrete
changed-OnlyThrough = record {
  lists = λ r other. refl;
  jobs = λ k outside. elim (ℕ_discrete 2 k) [
    | yes same ↦ absurd (outside (omega (arith, same)))
    | no other ↦ ground arith
  ];
  cells = λ a outside. refl;
}

-- The original's second Job is written to.
abbrev edited : Heap ℕ ℕ ℕ ℕ
edited = record copied { jobs = store 1 (job_at 8) copied.jobs }

edited-OnlyThrough : OnlyThrough pointer pointer pointer 0 copied edited
unfolding list_deep_copy list_deep_copy_into copy_slice copy_items copy_item job_deep_copy_into
    ℕ_discrete
edited-OnlyThrough = record {
  lists = λ r other. refl;
  jobs = λ k outside. elim (ℕ_discrete 1 k) [
    | yes same ↦ absurd (outside (omega (arith, same)))
    | no other ↦ ground arith
  ];
  cells = λ a outside. refl;
}

list_deep_copy-independent_example :
    let (q, h') = list_deep_copy pointer pointer pointer (some 0) heap in
    (q ≡ some 1)
    × (list_view pointer pointer pointer h' 1 ≡ list_view pointer pointer pointer heap 0)
    × (list_view pointer pointer pointer changed 0 ≡ list_view pointer pointer pointer heap 0)
    × (list_view pointer pointer pointer edited 1 ≡ list_view pointer pointer pointer heap 0)
list_deep_copy-independent_example =
    list_deep_copy-independent pointer pointer pointer pointer-Documented pointer-Documented
      pointer-Documented heap edited changed 0 heap-ListIsLive changed-OnlyThrough
      edited-OnlyThrough
