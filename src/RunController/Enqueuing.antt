-- ===== src/RunController/Enqueuing.antt =====
-- Which events put which keys into the work queue of Runs.
use test_concurrent_reconcil.Base.{
  String, Bool, none, some, ◌≡◌, refl, ap, ◌∙◌, ◌⊎◌, inl, inr, Option-cases,
}
use test_concurrent_reconcil.Kube.{M, Resource}
use test_concurrent_reconcil.Clientset.{returned}
use test_concurrent_reconcil.RunReconciler.Invoke.{scheme_group_version}
use test_concurrent_reconcil.Generated.Controller.{Impl, new_impl, set_from}
use test_concurrent_reconcil.Generated.Kinds.{run_new_impl}
use test_concurrent_reconcil.RunController.Events.{
  Event, Handling, Documented, Controller, current, passed, key_of, new_controller, notify_all,
}

module _ {RunSpec RunStatus : Type 0}
    (filter_run_ref : String → String → Resource RunSpec RunStatus → Bool)
    (group_version_string : String × String → String) where
  -- The filter on the informer of Runs.
  abbrev pub refers : Resource RunSpec RunStatus → Bool
  refers = filter_run_ref (group_version_string scheme_group_version) "Job"

module _ {W JobSpec JobStatus RunSpec RunStatus HJ HR Pc Jc Rl Jl : Type 0}
    (job_handling : Handling W (Resource JobSpec JobStatus) HJ)
    (run_handling : Handling W (Resource RunSpec RunStatus) HR)
    (filter_run_ref : String → String → Resource RunSpec RunStatus → Bool)
    (group_version_string : String × String → String)
    (enqueue : Impl → String × String → M W (Unit {0})) where
  -- What one event on a Job and one on a Run lead to.
  pub record Enqueues (c : Controller Pc Jc Rl Jl HJ HR)
      (job_event : Event (Resource JobSpec JobStatus))
      (run_event : Event (Resource RunSpec RunStatus)) (w : W) : Type 0 where
    pub on_job :
        (notify_all job_handling c.job_handlers job_event w).1
        ≡ (enqueue c.impl (key_of (current job_event)) w).1
    pub on_run :
        ((passed (refers filter_run_ref group_version_string) run_event ≡ none)
          × ((notify_all run_handling c.run_handlers run_event w).1 ≡ w))
        ⊎ ((ev : Event (Resource RunSpec RunStatus)) × (passed
                (refers filter_run_ref group_version_string)
                run_event
              ≡ some ev)
            × ((notify_all run_handling c.run_handlers run_event w).1
                ≡ (enqueue c.impl (key_of (current ev)) w).1))

  -- With the clientsets and informers in the context, and handlers as client-go and knative.dev/pkg
  -- document them: `NewController` returns a controller whose reconciler has those clientsets and
  -- listers. Each event on a Job puts that Job's own namespace and name into the queue of Runs; an
  -- event on a Run puts the Run's in if the Run, before or after, refers to a Job, and else
  -- nothing.
  pub new_controller-Enqueues :
      Documented job_handling
      → Documented run_handling
      → (pkg_path name : String) (pc : Pc) (jc : Jc) (rl : Rl) (jl : Jl)
        (job_event : Event (Resource JobSpec JobStatus))
        (run_event : Event (Resource RunSpec RunStatus)) (w : W)
      → (c : Controller Pc Jc Rl Jl HJ HR) × (new_controller job_handling run_handling
            filter_run_ref group_version_string enqueue pkg_path name
            (returned pc)
            (returned jc)
            (returned rl)
            (returned jl)
          ≡ returned (some c))
        × (c.reconciler ≡ record {
          pipeline_client_set = pc;
          job_client_set = jc;
          run_lister = rl;
          job_lister = jl;
        })
        × Enqueues c job_event run_event w
  unfolding new_controller run_new_impl new_impl set_from
  new_controller-Enqueues job_doc run_doc pkg_path name pc jc rl jl job_event run_event w = (
    _,
    refl,
    refl,
    record {
      on_job = ap (λ p. p.1) (job_doc.notify-handle_all _ job_event w);
      on_run = elim (Option-cases (passed (refers filter_run_ref group_version_string) run_event)) [
        | inl dropped ↦ inl (
          dropped,
          ap (λ p. p.1)
              (run_doc.notify-filtered (refers filter_run_ref group_version_string) _ run_event w
                dropped),
        )
        | inr (ev, kept) ↦ inr (
          ev,
          kept,
          ap (λ p. p.1)
              (run_doc.notify-passed (refers filter_run_ref group_version_string) _ run_event ev w
                  kept
                ∙ run_doc.notify-handle_all _ ev w),
        )
      ];
    },
  )
