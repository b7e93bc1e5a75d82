-- ===== src/Generated/Filtered.antt =====
-- Which finalizers a reconciler writes: its own is set or dropped, and those of others stay.
use test_concurrent_reconcil.Base.{
  String, true, false, not, ◌&&◌, Option, none, some, List, [], ◌∷◌, ◌++◌, ◌≡◌, ◌↔◌, refl, ◌∙◌, ◌≢◌,
  ◌==◌, string_eq, contains, contains-append, if◌then◌else◌, arith, inl, inr, Bool-cases, ◌∙◌, sym,
}
use test_concurrent_reconcil.Kube.{
  ReconcilerEvent, event_type_normal, Json, Action, Error, Resource, is_zero, patch, writes,
}
use test_concurrent_reconcil.Generated.Types.{KindWorld, StringSets, ReconcilerImpl}
use test_concurrent_reconcil.Generated.State.{is_some}
use test_concurrent_reconcil.Generated.Finalizers.{
  finalizers_patch, next_finalizers, add_finalizer, drop_finalizer, releases,
  update_finalizers_filtered, set_finalizer_if_finalizer, clear_finalizer,
}
use test_concurrent_reconcil.Generated.Laws.{IsStringSets}

-- What the finalizers to write have to be, from those that exist and those that are wanted.
abbrev pub IsFiltered : String → List String → List String → Option (List String) → Type 0
IsFiltered name existing desired none = contains existing name ≡ contains desired name
IsFiltered name existing desired (some written) =
    (contains existing name ≢ contains desired name)
    × ((x : String)
        → contains written x ≡ (if name == x then contains desired x else contains existing x))

module _ {T : Type 0} (sets : StringSets T) (laws : IsStringSets sets) where
  contains-added :
      (name : String) (existing desired : List String) (x : String)
      → contains desired name ≡ true
      → contains (existing ++ name ∷ []) x
        ≡ (if name == x then contains desired x else contains existing x)
  contains-added name existing desired x h =
      ground (arith, contains-append existing (name ∷ []) x, string_eq.equals_iff name x)

  contains-removed :
      (name : String) (existing desired : List String) (x : String)
      → contains desired name ≡ false
      → contains (sets.list (sets.delete (sets.new_string existing) name)) x
        ≡ (if name == x then contains desired x else contains existing x)
  contains-removed name existing desired x h = ground (
    arith,
    laws.has-new_string existing x,
    laws.has-delete (sets.new_string existing) name x,
    laws.contains-list (sets.delete (sets.new_string existing) name) x,
    string_eq.equals_iff name x,
  )

  -- If sets of strings are sets: what `updateFinalizersFiltered` writes, if it writes, has its own
  -- finalizer exactly if that is wanted, and any other finalizer exactly if the cached object has
  -- it. It writes if its own finalizer does not stand in the cached object as wanted, and writes
  -- nothing if it does.
  pub next_finalizers_lem :
      (name : String) (existing desired : List String)
      → IsFiltered name existing desired (next_finalizers sets name existing desired)
  next_finalizers_lem name existing desired =
      rw (laws.has-new_string desired name, laws.has-new_string existing name)
        (elim (Bool-cases (contains desired name)) [
          | inl wanted ↦ elim (Bool-cases (contains existing name)) [
            | inl present ↦ rw (wanted, present) (present ∙ sym wanted)
            | inr absent ↦
                rw (wanted, absent)
                  (λ p. cc (p, absent, wanted), λ x. contains-added name existing desired x wanted)
          ]
          | inr unwanted ↦ elim (Bool-cases (contains existing name)) [
            | inl present ↦
                rw (unwanted, present)
                  (
                    λ p. cc (p, present, unwanted),
                    λ x. contains-removed name existing desired x unwanted,
                  )
            | inr absent ↦ rw (unwanted, absent) (absent ∙ sym unwanted)
          ]
        ])

module _ {S Spec Status X T : Type 0} (r : ReconcilerImpl S Spec Status X T) where
  -- After the drop, the finalizer is wanted exactly if the event does not release it.
  contains-drop_finalizer :
      IsStringSets r.library.sets
      → (resource : Resource Spec Status) (ev : Option Error)
      → contains resource.meta.finalizers r.finalizer_name ≡ true
      → contains (drop_finalizer r resource ev).meta.finalizers r.finalizer_name
        ≡ not (releases r ev)
  contains-drop_finalizer laws resource ev mine =
      let before = r.library.sets.new_string resource.meta.finalizers in
      ground (
        arith,
        laws.contains-list before r.finalizer_name,
        laws.has-new_string resource.meta.finalizers r.finalizer_name,
        laws.contains-list (r.library.sets.delete before r.finalizer_name) r.finalizer_name,
        laws.has-delete before r.finalizer_name r.finalizer_name,
        string_eq.equals_iff r.finalizer_name r.finalizer_name,
      )

  contains-add_finalizer :
      IsStringSets r.library.sets
      → (resource : Resource Spec Status) → is_zero resource.meta.deletion_timestamp ≡ true
      → contains (add_finalizer r resource).meta.finalizers r.finalizer_name ≡ true
  contains-add_finalizer laws resource live =
      let before = r.library.sets.new_string resource.meta.finalizers in
      ground (
        arith,
        laws.contains-list (r.library.sets.insert before r.finalizer_name) r.finalizer_name,
        laws.has-insert before r.finalizer_name r.finalizer_name,
        string_eq.equals_iff r.finalizer_name r.finalizer_name,
      )

  -- The patch that sets the finalizers of the cached object `actual`.
  abbrev pub patch_of : Resource Spec Status → List String → Action (Resource Spec Status) X
  patch_of actual finalizers =
      patch actual.meta.namespace actual.meta.name
        (r.library.marshal (finalizers_patch finalizers actual.meta.resource_version)).0

  abbrev pub without_mine : Resource Spec Status → List String
  without_mine actual =
      r.library.sets.list
        (r.library.sets.delete (r.library.sets.new_string actual.meta.finalizers) r.finalizer_name)

  -- An event after which the object may go: none, or one that holds a reconciler event of type
  -- Normal.
  abbrev pub LetsGo : Option Error → Type 0
  LetsGo none = Unit
  LetsGo (some ev) =
      (found : ReconcilerEvent) × (r.library.event_as ev ≡ some found)
      × (found.event_type ≡ event_type_normal)

  releases_found :
      (ev : Error) (o : Option ReconcilerEvent)
      → r.library.event_as ev ≡ o
      → (releases r (some ev) ≡ true) ↔ LetsGo (some ev)
  releases_found ev none h =
      let held : releases r (some ev) ≡ false = ground arith in
      ((λ p. cc), λ (found, same, normal). cc)
  releases_found ev (some found) h =
      let held : releases r (some ev) ≡ (found.event_type == event_type_normal) = ground arith in
      let (to_normal, of_normal) = string_eq.equals_iff found.event_type event_type_normal in
      ((λ p. (found, h, to_normal (sym held ∙ p))), λ (other, same, normal). held ∙ of_normal (cc))

  releases_iff : (ev : Option Error) → (releases r ev ≡ true) ↔ LetsGo ev
  releases_iff none = ((λ p. tt), λ p. refl)
  releases_iff (some ev) = releases_found ev (r.library.event_as ev) refl

  module _ (laws : IsStringSets r.library.sets)
      (marshals : (j : Json) → (r.library.marshal j).1 ≡ none)
      (resource actual : Resource Spec Status) (w : KindWorld S Spec Status X) (s : S)
      (same_namespace : actual.meta.namespace ≡ resource.meta.namespace)
      (same_name : actual.meta.name ≡ resource.meta.name)
      (cached : r.library.lister_get resource.meta.namespace resource.meta.name w.server
        ≡ ((actual, none), s))
      (implemented : is_some r.reconciler.finalizer ≡ true) where
    -- `clearFinalizer` of a reconciler with a finalizer, for an object that is being deleted and has
    -- it, where the cached object of the same name has it too, is found and can be marshalled: one
    -- patch is sent if the event is nil or holds a reconciler event of type Normal, and nothing is
    -- written after any other event. The patch drops the reconciler's own finalizer from those of
    -- the cached object and keeps all others.
    pub writes-clear_finalizer :
        (ev : Option Error)
        → is_zero resource.meta.deletion_timestamp ≡ false
        → contains resource.meta.finalizers r.finalizer_name ≡ true
        → contains actual.meta.finalizers r.finalizer_name ≡ true
        → (writes (clear_finalizer r resource ev w).1.trace ≡ (
            if releases r ev
            then patch_of actual (without_mine actual) ∷ writes w.trace
            else writes w.trace))
          × ((releases r ev ≡ true) ↔ LetsGo ev)
          × ((x : String)
              → contains (without_mine actual) x
                ≡ (not (r.finalizer_name == x) && contains actual.meta.finalizers x))
    unfolding clear_finalizer update_finalizers_filtered
    writes-clear_finalizer ev deleted mine there = (
      ground (
        arith,
        contains-drop_finalizer laws resource ev mine,
        laws.has-new_string (drop_finalizer r resource ev).meta.finalizers r.finalizer_name,
        laws.has-new_string actual.meta.finalizers r.finalizer_name,
        marshals (finalizers_patch (without_mine actual) actual.meta.resource_version),
      ),
      releases_iff ev,
      λ x. ground (
        arith,
        laws.contains-list
            (r.library.sets.delete (r.library.sets.new_string actual.meta.finalizers)
              r.finalizer_name)
            x,
        laws.has-delete (r.library.sets.new_string actual.meta.finalizers) r.finalizer_name x,
        laws.has-new_string actual.meta.finalizers x,
      ),
    )

    -- `setFinalizerIfFinalizer` of a reconciler with a finalizer, for an object that is not being
    -- deleted, where the cached object of the same name is found and can be marshalled, sends one
    -- patch if the cached object lacks the finalizer, which appends it to those of the cached
    -- object, and writes nothing if the cached object has it.
    pub writes-set_finalizer_if_finalizer :
        is_zero resource.meta.deletion_timestamp ≡ true
        → writes (set_finalizer_if_finalizer r resource w).1.trace ≡ (
            if contains actual.meta.finalizers r.finalizer_name
            then writes w.trace
            else patch_of actual (actual.meta.finalizers ++ r.finalizer_name ∷ []) ∷ writes w.trace)
    unfolding set_finalizer_if_finalizer update_finalizers_filtered
    writes-set_finalizer_if_finalizer live = ground (
      arith,
      contains-add_finalizer laws resource live,
      laws.has-new_string (add_finalizer r resource).meta.finalizers r.finalizer_name,
      laws.has-new_string actual.meta.finalizers r.finalizer_name,
      marshals (
          finalizers_patch (actual.meta.finalizers ++ r.finalizer_name ∷ [])
            actual.meta.resource_version),
    )
