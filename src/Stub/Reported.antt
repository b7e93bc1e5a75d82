-- ===== src/Stub/Reported.antt =====
-- What a reconciler that is left as the stub is does with an object.
use test_concurrent_reconcil.Base.{
  String, Bool, true, none, some, [], ◌∷◌, ◌≡◌, refl, EqType, Bool-cases, inl, inr, arith,
}
use test_concurrent_reconcil.Kube.{Error, event_type_normal, record_event, text, is_zero, Resource}
use test_concurrent_reconcil.Generated.Types.{KindWorld, Library, Client}
use test_concurrent_reconcil.Generated.Laws.{Documented}
use test_concurrent_reconcil.Generated.State.{do_reconcile_kind, state_for, reconcile_method_for}
use test_concurrent_reconcil.Generated.Finalizers.{set_finalizer_if_finalizer}
use test_concurrent_reconcil.Generated.Reconcile.{
  goes_on, run_method, synchronize_status, report, finish, process_found,
}
use test_concurrent_reconcil.Generated.Types.{ReconcilerImpl}
use test_concurrent_reconcil.Generated.RunKind.{run_impl}
use test_concurrent_reconcil.Stub.{stub_reconcile_kind, stub_reconciler, new_reconciled_normal}

module _ {S Spec Status X T : Type 0} ⦃e : EqType Status⦄ (lib : Library S Spec Status X T)
    (client : Client S (Resource Spec Status)) (finalizer_name : String) (skips : Bool) where
  abbrev impl : ReconcilerImpl S Spec Status X T
  impl = run_impl (record {
    library = lib;
    client = client;
    reconciler = stub_reconciler;
    finalizer_name = finalizer_name;
    skip_status_updates = skips;
  })

  synchronized :
      (doc : Documented lib) (o : Resource Spec Status) (v : KindWorld S Spec Status X)
      → synchronize_status impl true o o v ≡ (none, v)
  unfolding synchronize_status
  synchronized doc o v = ground (arith, doc.semantic_refl o.status)

  module _ (doc : Documented lib) (o : Resource Spec Status)
      (before : lib.pre_process_reconcile o ≡ o) (after : lib.post_process_reconcile o o ≡ o)
      (w : KindWorld S Spec Status X) where
    abbrev stub_event : Error
    stub_event = new_reconciled_normal o.meta.namespace o.meta.name

    -- One event of type Normal.
    abbrev reported : KindWorld S Spec Status X
    reported = record w {
      trace =
          record_event o event_type_normal "RunReconciled" "Run reconciled: \"%s/%s\""
            (text o.meta.namespace ∷ text o.meta.name ∷ [])
          ∷ w.trace;
    }

    run_method-stub :
        run_method impl o (do_reconcile_kind stub_reconcile_kind) w
        ≡ (goes_on o (some stub_event), w)
    unfolding run_method set_finalizer_if_finalizer
    run_method-stub = elim (Bool-cases skips) [ inl off ↦ rw off | inr on ↦ rw (on, before, after) ]

    report-stub : report impl o (some stub_event) w ≡ (none, reported)
    unfolding report
    report-stub = simp (doc.event_as-event _) refl

    finish-stub : finish impl true o (goes_on o (some stub_event)) w ≡ (none, reported)
    unfolding finish
    finish-stub = rw (synchronized doc o w) report-stub

    -- The leader with the stub's reconciler, on an object that is not being deleted and that the
    -- processing before and after leaves as it is, records one event of type Normal, sends nothing,
    -- and returns nil.
    process_found-stub :
        (key : String) (names : String × String)
        → is_zero o.meta.deletion_timestamp ≡ true
        → process_found impl (state_for impl key names true) (o, none) w ≡ (none, reported)
    unfolding process_found reconcile_method_for
    process_found-stub key names present = rw (present, run_method-stub) finish-stub
