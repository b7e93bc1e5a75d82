-- ===== src/RunController/Events.antt =====
-- `NewController` of pkg/reconciler/job/controller.go: what the reconciler of Runs is made from, and
-- the handlers that it puts on the informers of Jobs and of Runs.
use test_concurrent_reconcil.Base.{
  String, Bool, Option, none, some, List, [], ◌∷◌, if◌then◌else◌, ◌≡◌,
}
use test_concurrent_reconcil.Kube.{M, Resource, pure, ◌>>◌}
use test_concurrent_reconcil.Clientset.{Outcome, returned, panicked}
use test_concurrent_reconcil.RunReconciler.Invoke.{scheme_group_version}
use test_concurrent_reconcil.Generated.Controller.{Impl, Settings}
use test_concurrent_reconcil.Generated.Kinds.{run_new_impl}

-- What an informer tells its handlers of.
pub data Event (O : Type 0) : Type 0 where
  added : O → Event O
  updated : O → O → Event O
  deleted : O → Event O

-- The handlers `H` of objects `O` in client-go and knative.dev/pkg: `controller.HandleAll`,
-- `cache.FilteringResourceEventHandler`, and a call of a handler.
pub record Handling (W O H : Type 0) : Type 0 where
  pub handle_all : (O → M W (Unit {0})) → H
  pub filtering : (O → Bool) → H → H
  pub notify : H → Event O → M W (Unit {0})

-- The object that `HandleAll` passes on.
abbrev pub current : {O : Type 0} → Event O → O
current (added o) = o
current (updated old new) = new
current (deleted o) = o

-- What a filter lets through: an update is an addition or a deletion where only one of the two
-- objects passes.
abbrev pub passed : {O : Type 0} → (O → Bool) → Event O → Option (Event O)
passed f (added o) = if f o then some (added o) else none
passed f (updated old new) =
    if f new
    then (if f old then some (updated old new) else some (added new))
    else if f old
    then some (deleted old)
    else none
passed f (deleted o) = if f o then some (deleted o) else none

pub record Documented {W O H : Type 0} (lib : Handling W O H) : Type 0 where
  pub notify-handle_all :
      (h : O → M W (Unit {0})) (ev : Event O) (w : W)
      → lib.notify (lib.handle_all h) ev w ≡ h (current ev) w
  pub notify-filtered :
      (f : O → Bool) (h : H) (ev : Event O) (w : W)
      → passed f ev ≡ none
      → lib.notify (lib.filtering f h) ev w ≡ (tt, w)
  pub notify-passed :
      (f : O → Bool) (h : H) (ev ev' : Event O) (w : W)
      → passed f ev ≡ some ev'
      → lib.notify (lib.filtering f h) ev w ≡ lib.notify h ev' w

-- `Reconciler` of job.go, as `NewController` fills it: the two clientsets and the two listers. The
-- tracker that it makes too is used by nothing and left out.
pub record Filled (Pc Jc Rl Jl : Type 0) : Type 0 where
  pub pipeline_client_set : Pc
  pub job_client_set : Jc
  pub run_lister : Rl
  pub job_lister : Jl

pub record Controller (Pc Jc Rl Jl HJ HR : Type 0) : Type 0 where
  pub reconciler : Filled Pc Jc Rl Jl
  pub impl : Impl
  pub job_handlers : List HJ
  pub run_handlers : List HR

module _ {Spec Status : Type 0} where
  abbrev pub key_of : Resource Spec Status → String × String
  key_of o = (o.meta.namespace, o.meta.name)

-- A `Get` that panicked ends the function.
abbrev pub and_then : {A B : Type 0} → Outcome A → (A → Outcome B) → Outcome B
and_then (panicked err) f = panicked err
and_then (returned a) f = f a

module _ {W JobSpec JobStatus RunSpec RunStatus HJ HR Pc Jc Rl Jl : Type 0}
    (job_handling : Handling W (Resource JobSpec JobStatus) HJ)
    (run_handling : Handling W (Resource RunSpec RunStatus) HR)
    (filter_run_ref : String → String → Resource RunSpec RunStatus → Bool)
    (group_version_string : String × String → String)
    (enqueue : Impl → String × String → M W (Unit {0})) where
  -- From `NewImpl` on; `none` of it, which ends the process, does not occur without options.
  abbrev pub with_impl :
      Filled Pc Jc Rl Jl
      → Option ((Settings (Unit {0}) × String) × Impl)
      → Option (Controller Pc Jc Rl Jl HJ HR)
  with_impl r none = none
  with_impl r (some (settings, impl)) = some (record {
    reconciler = r;
    impl = impl;
    job_handlers = job_handling.handle_all (λ job. enqueue impl (key_of job)) ∷ [];
    run_handlers =
        run_handling.filtering (filter_run_ref (group_version_string scheme_group_version) "Job")
          (run_handling.handle_all (λ run. enqueue impl (key_of run)))
        ∷ [];
  })

  -- From what the four `Get` functions give: the clientsets, and the listers of the informers.
  unfoldable pub new_controller :
      String
      → String
      → Outcome Pc
      → Outcome Jc
      → Outcome Rl
      → Outcome Jl
      → Outcome (Option (Controller Pc Jc Rl Jl HJ HR))
  unfolding run_new_impl
  new_controller pkg_path name pipeline_client job_client run_informer job_informer =
      and_then pipeline_client (λ pipelineclientset. and_then job_client (λ jobclientset.
        and_then run_informer (λ run_lister. and_then job_informer (λ job_lister. returned (
          with_impl
            (record {
              pipeline_client_set = pipelineclientset;
              job_client_set = jobclientset;
              run_lister = run_lister;
              job_lister = job_lister;
            })
            (run_new_impl pkg_path name []))))))

module _ {W O H : Type 0} (lib : Handling W O H) where
  -- An informer passes an event on to each of its handlers.
  abbrev pub notify_all : List H → Event O → M W (Unit {0})
  notify_all [] ev = pure tt
  notify_all (h ∷ hs) ev = lib.notify h ev >> notify_all hs ev
