-- ===== src/Generated/Outcome.antt =====
-- What `Reconcile` returns, and so what the work queue does with the key.
use test_concurrent_reconcil.Base.{
  String, true, false, Option, none, some, [], ◌∷◌, ◌≡◌, refl, sym, ◌↔◌, EqType, arith, map, ◌⊎◌,
}
use test_concurrent_reconcil.Kube.{
  Action, event_type_warning, ReconcilerEvent, Error, event, Resource, record_event, text,
  error_text, Returns,
}
use test_concurrent_reconcil.Generated.Types.{KindWorld, ReconcilerImpl}
use test_concurrent_reconcil.Generated.State.{
  State, unknown, is_not_leader_nor_observer, reconcile_method_for, new_state, state_for,
}
use test_concurrent_reconcil.Generated.Reconcile.{
  run_method, report, finish, process_found, process, reconcile,
}
use test_concurrent_reconcil.Generated.Laws.{Documented}

module _ {S Spec Status X T : Type 0} (r : ReconcilerImpl S Spec Status X T) where
  -- The one Kubernetes event that a reconciler's event becomes.
  abbrev pub recorded : Resource Spec Status → Error → Action (Resource Spec Status) X
  recorded resource e = elim (r.library.event_as e) [
    | some found ↦
        record_event resource found.event_type found.reason found.format (map text found.args)
    | none ↦ record_event resource event_type_warning "InternalError" "" (error_text e ∷ [])
  ]

  -- If `EventAs` finds an event that is the error itself, then for every event that is not nil one
  -- Kubernetes event is recorded and nothing else changes; the result is nil exactly if the event is
  -- itself a reconciler event, not one wrapped in an error, and else it is the event as it is.
  pub report_lem :
      Documented r.library
      → (resource : Resource Spec Status) (e : Error) (w : KindWorld S Spec Status X)
      → (((report r resource (some e) w).0 ≡ none) ↔ ((d : ReconcilerEvent) × (e ≡ event d)))
        × (((report r resource (some e) w).0 ≡ none) ⊎ ((report r resource (some e) w).0 ≡ some e))
        × ((report r resource (some e) w).1 ≡ record w { trace = recorded resource e ∷ w.trace })
  unfolding report
  report_lem doc resource (event d) w =
      let found = doc.event_as-event d in
      ((λ _. (d, refl), λ _. ground arith), ground arith, ground arith)
  report_lem doc resource e w = ((λ p. ground arith, λ q. cc (q.1)), ground arith, ground arith)

module _ {S Spec Status X T : Type 0} ⦃e : EqType Status⦄
    (r : ReconcilerImpl S Spec Status X T) where
  -- The state that `newState` builds in the world `w`, and what the lister then returns.
  abbrev pub state_in :
      KindWorld S Spec Status X
      → String
      → String × String
      → State (KindWorld S Spec Status X) (Resource Spec Status)
  state_in w key names = state_for r key names (r.library.is_leader_for names w.server).0

  abbrev pub found_in : KindWorld S Spec Status X → String × String → Returns (Resource Spec Status)
  found_in w names =
      (r.library.lister_get names.0 names.1 (r.library.is_leader_for names w.server).1).0

  -- The cases in which a key is not this instance's business, with what `Reconcile` returns.
  pub data IsIdle (key : String) (w : KindWorld S Spec Status X) (res : Option Error) : Type 0 where
    invalid : r.library.split_meta_namespace_key key ≡ none → res ≡ none → IsIdle key w res
    no_role :
        (names : String × String)
        → r.library.split_meta_namespace_key key ≡ some names
        → is_not_leader_nor_observer (state_in w key names) ≡ true
        → res ≡ r.template.not_leader key
        → IsIdle key w res
    gone :
        (names : String × String) (o : Resource Spec Status) (failed : Error)
        → r.library.split_meta_namespace_key key ≡ some names
        → is_not_leader_nor_observer (state_in w key names) ≡ false
        → found_in w names ≡ (o, some failed)
        → r.library.is_not_found failed ≡ true
        → res ≡ none
        → IsIdle key w res
    no_method :
        (names : String × String) (o : Resource Spec Status)
        → r.library.split_meta_namespace_key key ≡ some names
        → is_not_leader_nor_observer (state_in w key names) ≡ false
        → found_in w names ≡ (o, none)
        → reconcile_method_for (state_in w key names) o ≡ unknown
        → res ≡ none
        → IsIdle key w res

  process-unknown :
      Documented r.library
      → (s : State (KindWorld S Spec Status X) (Resource Spec Status)) (o : Resource Spec Status)
        (w : KindWorld S Spec Status X)
      → reconcile_method_for s o ≡ unknown
      → process_found r s (o, none) w ≡ (none, w)
  unfolding process_found run_method finish
  process-unknown doc s o w h = simp h (ground (arith, doc.semantic_refl o.status))

  -- If the library does as it documents: on an invalid key, without a role, for an object that is
  -- gone, and for an object that no method is there for, `Reconcile` sends nothing and records
  -- nothing; it returns nil, or without a role what the template returns there.
  pub reconcile-idle :
      Documented r.library
      → (key : String) (w : KindWorld S Spec Status X) (res : Option Error) → IsIdle key w res
      → ((reconcile r key w).0 ≡ res) × ((reconcile r key w).1.trace ≡ w.trace)
  unfolding reconcile new_state process
  reconcile-idle doc key w res (invalid h p) = rw h (sym p, refl)
  reconcile-idle doc key w res (no_role names h idle p) = simp h (simp idle (sym p, refl))
  reconcile-idle doc key w res (gone names o failed h busy f nf p) =
      simp h (simp busy (simp f (unfold process_found in simp nf (sym p, refl))))
  reconcile-idle doc key w res (no_method names o h busy f m p) =
      simp h
        (simp busy (simp f (simp (process-unknown doc (state_in w key names) o _ m) (sym p, refl))))
