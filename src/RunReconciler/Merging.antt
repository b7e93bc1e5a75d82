-- ===== src/RunReconciler/Merging.antt =====
-- Labels and annotations: when they are sent, and what the merging functions give.
use test_concurrent_reconcil.Base.{
  String, true, Option, none, some, [], ◌≡◌, ◌↔◌, refl, if◌then◌else◌, ◌==◌, string_eq, ◌∙◌,
}
use test_concurrent_reconcil.Base.Maps.{
  Map, lookup, insert_all, lookup-insert, lookup-insert_all, or_else, same_entries_iff,
}
use test_concurrent_reconcil.Kube.{ObjectMeta, StringMap, Resource}
use test_concurrent_reconcil.RunReconciler.Labels.{
  deep_equal, entries, job_key, propagate_exception_labels_and_annotations,
  get_pipeline_run_annotations, get_task_run_labels,
}

-- Two maps that Go calls deeply equal: both nil, or both not nil with the same value at each key.
abbrev pub SameMap : StringMap → StringMap → Type 0
SameMap none none = Unit
SameMap (some a) (some b) = (k : String) → lookup k a ≡ lookup k b
SameMap _ _ = ⊥

pub deep_equal_iff : (a b : StringMap) → (deep_equal a b ≡ true) ↔ SameMap a b
unfolding deep_equal
deep_equal_iff none none = ((λ h. tt), (λ h. refl))
deep_equal_iff none (some b) = ((λ h. cc), (λ h. absurd h))
deep_equal_iff (some a) none = ((λ h. cc), (λ h. absurd h))
deep_equal_iff (some a) (some b) = same_entries_iff a b

or_else-none : {V : Type 0} (o : Option V) → or_else o none ≡ o
or_else-none none = refl
or_else-none (some v) = refl

-- A copy that is filled by a range over a map.
lookup-copy : (k : String) (m : Map String String) → lookup k (insert_all m []) ≡ lookup k m
unfolding lookup
lookup-copy k m = lookup-insert_all k m [] ∙ or_else-none (lookup k m)

module _ {Spec Status : Type 0} where
  -- After the propagation a Run has the name of its Job under the Job's key, at any other key what
  -- the Job has there, or else what the Run had; its annotations likewise, with no key of their
  -- own.
  pub propagate_lookup :
      (run : Resource Spec Status) (m : ObjectMeta) (k : String)
      → let after = (propagate_exception_labels_and_annotations run m).meta in
        (lookup k (entries after.labels) ≡ (
          if job_key == k
          then some m.name
          else or_else (lookup k (entries m.labels)) (lookup k (entries run.meta.labels))))
        × (lookup k (entries after.annotations)
            ≡ or_else (lookup k (entries m.annotations)) (lookup k (entries run.meta.annotations)))
  unfolding propagate_exception_labels_and_annotations
  propagate_lookup run m k = (
    simp (lookup-insert, lookup-insert_all),
    lookup-insert_all k (entries m.annotations) (entries run.meta.annotations),
  )

  -- A TaskRun gets the labels of its Run, with the Run's name under Tekton's key; the annotations
  -- for a PipelineRun are those of the Run.
  task_run_labels_lookup :
      (run_key : String) (run : Resource Spec Status) (k : String)
      → (lookup k (get_task_run_labels run_key run)
          ≡ (if run_key == k then some run.meta.name else lookup k (entries run.meta.labels)))
        × (lookup k (get_pipeline_run_annotations run) ≡ lookup k (entries run.meta.annotations))
  unfolding get_task_run_labels get_pipeline_run_annotations
  task_run_labels_lookup run_key run k =
      (simp (lookup-insert, lookup-copy), lookup-copy k (entries run.meta.annotations))
