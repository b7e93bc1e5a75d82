-- ===== src/RunController/Storing.antt =====
-- What the API server stores for a Run once the controller has requested it.
use mathlib.Core.Path.{subst}
use test_concurrent_reconcil.Base.{
  ◌≤◌, String, true, false, none, some, ◌≡◌, ◌≢◌, refl, ap, sym, ◌∙◌, EqType, Bool-cases, inl, inr,
  arith,
}
use test_concurrent_reconcil.Kube.{is_zero}
use test_concurrent_reconcil.Generated.Types.{Client, Library, ReconcilerImpl}
use test_concurrent_reconcil.Generated.Laws.{Documented}
use test_concurrent_reconcil.Generated.State.{
  new_state_from, state_for, reconcile_method_for, is_not_leader_nor_observer,
}
use test_concurrent_reconcil.Generated.Finalizers.{set_finalizer_if_finalizer}
use test_concurrent_reconcil.Generated.Stored.{IsStore, update_status-Stands}
use test_concurrent_reconcil.Generated.Reconcile.{
  goes_on, run_method, finish, process_found, process, reconcile,
}
use test_concurrent_reconcil.Generated.Clock.{finish-time}
use test_concurrent_reconcil.Generated.RunKind.{run_impl, run_reconcile}
use test_concurrent_reconcil.RunReconciler.Types.{
  Run, RunSpec, RunStatus, Emit, RunWorld, Reconciler,
}
use test_concurrent_reconcil.RunReconciler.Invoke.{InvokeParams}
use test_concurrent_reconcil.RunReconciler.Throttle.{HasParams, answer_time}
use test_concurrent_reconcil.RunReconciler.Wanted.{
  IsWanted, IsWanted-server, subject_of, subject_of-server, wanted_run, wanted_run-names,
  wanted_run-start_time, reconcile_kind-wanted,
}
use test_concurrent_reconcil.RunController.{kind_method, run_controller}
use test_concurrent_reconcil.RunController.Laws.{whole_seconds, OnlyGrooms, IsListed, IsRunStore}
use test_concurrent_reconcil.RunController.Finishing.{finish-none, finish-server}

module _ {S P C Cond T : Type 0} ⦃e : EqType (RunStatus C)⦄ (r : Reconciler S P C Cond)
    (lib : Library S (RunSpec P) (RunStatus C) (Emit Cond) T) (client : Client S (Run P C))
    (finalizer_name : String) (doc : Documented lib)
    (compared : (a b : RunStatus C)
      → lib.semantic_deep_equal a b ≡ true
      → a.start_time ≡ b.start_time)
    (grooms : OnlyGrooms lib) where
  abbrev controller : ReconcilerImpl S (RunSpec P) (RunStatus C) (Emit Cond) T
  controller = run_impl (run_controller r lib client finalizer_name false)

  module _ (run : Run P C) (params : InvokeParams) (w : RunWorld S P C Cond)
      (wanted : IsWanted r (lib.pre_process_reconcile run) w)
      (given : HasParams r (lib.pre_process_reconcile run).spec.params params)
      (encoded : (r.tekton.encode_extra_fields "" (subject_of r wanted).run.status.conditions).1
        ≡ none)
      (status_at : S → RunStatus C)
      (stores : IsRunStore client (run.meta.namespace, run.meta.name) status_at) where
    -- The Run as the method hands it back, and as it is after the processing.
    abbrev answered : Run P C
    answered = wanted_run r wanted

    abbrev groomed : Run P C
    groomed = lib.post_process_reconcile answered run

    groomed-names :
        (run.meta.namespace ≡ groomed.meta.namespace) × (run.meta.name ≡ groomed.meta.name)
    groomed-names =
        let (namespace, name) = wanted_run-names r wanted in
        let before = (grooms.pre run).same_meta in
        let after = (grooms.post answered run).same_meta in
        (
          sym (ap (λ m. m.namespace) before) ∙ namespace ∙ sym (ap (λ m. m.namespace) after),
          sym (ap (λ m. m.name) before) ∙ name ∙ sym (ap (λ m. m.name) after),
        )

    groomed-start_time : groomed.status.start_time ≡ some (answer_time r w)
    groomed-start_time = (grooms.post answered run).same_start

    groomed-IsStore :
        IsStore client (groomed.meta.namespace, groomed.meta.name) stores.kept status_at
    groomed-IsStore =
        let (namespace, name) = groomed-names in
        subst (λ names. IsStore client names stores.kept status_at) (λ i. (namespace i, name i))
          stores.store

    start_time-differs : run.status.start_time ≢ groomed.status.start_time
    start_time-differs same =
        wanted_run-start_time r wanted
          ((grooms.pre run).same_start ∙ same ∙ (grooms.post answered run).same_start)

    seen : lib.semantic_deep_equal run.status groomed.status ≡ false
    seen = elim (Bool-cases (lib.semantic_deep_equal run.status groomed.status)) [
      | inl same ↦ absurd (start_time-differs (compared run.status groomed.status same))
      | inr other ↦ other
    ]

    process_found-time :
        (key : String) (names : String × String)
        → is_zero run.meta.deletion_timestamp ≡ true
        → answer_time r w
          ≤ (process_found controller (state_for controller key names true) (run, none) w).1.time
    unfolding process_found reconcile_method_for run_method set_finalizer_if_finalizer
    process_found-time key names present =
        let (err, result, time) =
          reconcile_kind-wanted r (lib.pre_process_reconcile run) params w wanted given encoded in
        let v = (kind_method r (lib.pre_process_reconcile run) w).1 in
        rw (present, result)
          (omega (arith, finish-time controller doc run groomed true err v, time))

    process_found-stores :
        (key : String) (names : String × String)
        → is_zero run.meta.deletion_timestamp ≡ true
        → (process_found controller (state_for controller key names true) (run, none) w).0 ≡ none
        → status_at
            (process_found controller (state_for controller key names true) (run, none) w).1.server
          ≡ stores.kept groomed.status
    unfolding process_found reconcile_method_for run_method set_finalizer_if_finalizer
    process_found-stores key names present ok =
        let (err, result, time) =
          reconcile_kind-wanted r (lib.pre_process_reconcile run) params w wanted given encoded in
        let v = (kind_method r (lib.pre_process_reconcile run) w).1 in
        let finished : (finish controller true run (goes_on groomed err) v).0 ≡ none =
          rw (present, result) at ok in
        let (namespace, name) = groomed-names in
        rw (present, result)
          (ap status_at (finish-server controller run groomed refl seen v err)
            ∙ update_status-Stands controller run groomed stores.kept status_at groomed-IsStore
                (namespace, name) (λ same. start_time-differs (ap (λ s. s.start_time) same)) doc v
                (finish-none controller run groomed refl seen v err finished))

  -- The controller on the key of a Run that it leads for and that the lister has, not deleted, new
  -- or due, with all four parameters and an answer that can be encoded; where the library does as
  -- it documents and compares statuses by their start times at least, the processing before and
  -- after changes a status besides its start time at most, and the API server stores what it
  -- accepts, of a start time the whole seconds. If `Reconcile` returns nil, the API server then
  -- stores the whole seconds of the time of the answer as the start time, and the clock shows that
  -- time or a later one.
  pub run_controller-stores :
      (key : String) (run : Run P C) (params : InvokeParams) (w : RunWorld S P C Cond)
      → IsListed lib key run w
      → (wanted : IsWanted r (lib.pre_process_reconcile run) w) → HasParams r run.spec.params params
      → (r.tekton.encode_extra_fields "" (subject_of r wanted).run.status.conditions).1 ≡ none
      → (status_at : S → RunStatus C)
      → IsRunStore client (run.meta.namespace, run.meta.name) status_at
      → (run_reconcile (run_controller r lib client finalizer_name false) key w).0 ≡ none
      → let w' = (run_reconcile (run_controller r lib client finalizer_name false) key w).1 in
        ((status_at w'.server).start_time ≡ some (whole_seconds (answer_time r w)))
        × (answer_time r w ≤ w'.time)
  unfolding run_reconcile reconcile process is_not_leader_nor_observer
  run_controller-stores key run params w listed wanted given encoded status_at stores ok =
      let (namespace, name) = listed.names in
      let answer = lib.lister_get namespace name (lib.is_leader_for listed.names w.server).1 in
      let v : RunWorld S P C Cond = record w { server = answer.1 } in
      let wanted' = IsWanted-server r answer.1 wanted in
      let given' : HasParams r (lib.pre_process_reconcile run).spec.params params =
        rw (grooms.pre run).same_spec given in
      let encoded' : (r.tekton.encode_extra_fields ""
            (subject_of r wanted').run.status.conditions).1
          ≡ none =
        rw (subject_of-server r answer.1 wanted) encoded in
      rw (new_state_from controller key listed.names w listed.valid, listed.leads, listed.listed)
        ((
          ap (λ s. s.start_time)
                (process_found-stores run params v wanted' given' encoded' status_at stores key
                  listed.names listed.not_deleted
                  (rw
                    (
                      new_state_from controller key listed.names w listed.valid,
                      listed.leads,
                      listed.listed,
                    )
                    at ok))
              ∙ stores.keeps_seconds _ _
                  (groomed-start_time run params v wanted' given' encoded' status_at stores),
          process_found-time run params v wanted' given' encoded' status_at stores key listed.names
              listed.not_deleted,
        ))
