-- ===== src/Generated/Finalizers.antt =====
-- The finalizer methods of reconciler.go.
use test_concurrent_reconcil.Base.{
  String, Bool, Option, none, some, List, [], ◌∷◌, ◌++◌, if◌then◌else◌, ◌==◌, string_eq,
}
use test_concurrent_reconcil.Kube.{
  event_type_normal, event_type_warning, Error, Returns, Resource, is_zero, M, pure, act, read,
  request, patch, record_event, text, error_text, ◌>>=◌, ◌>>◌, Json, str, arr, obj, field, end,
}
use test_concurrent_reconcil.Generated.Types.{KindWorld, StringSets, ReconcilerImpl}
use test_concurrent_reconcil.Generated.State.{is_some}

-- `set_finalizers o names` is `o.Finalizers = names`.
abbrev pub set_finalizers :
    {Spec Status : Type 0} → Resource Spec Status → List String → Resource Spec Status
set_finalizers o names = record o { meta = record o.meta { finalizers = names } }

abbrev pub finalizers_patch : List String → String → Json
finalizers_patch finalizers resource_version = obj (
    field "metadata"
      (obj
        (field "finalizers" (arr finalizers) (field "resourceVersion" (str resource_version) end)))
      end)

module _ {T : Type 0} (sets : StringSets T) where
  open sets use {new_string, has, insert, delete, list}

  -- The finalizers to write, from those of the cached object and those wanted: `none` if the one
  -- that this reconciler looks after is already as wanted.
  abbrev pub next_finalizers : String → List String → List String → Option (List String)
  next_finalizers name existing desired =
      if has (new_string desired) name
      then (if has (new_string existing) name then none else some (existing ++ name ∷ []))
      else if has (new_string existing) name
      then some (list (delete (new_string existing) name))
      else none

module _ {S Spec Status X T : Type 0} where
  abbrev send_finalizers :
      ReconcilerImpl S Spec Status X T
      → Resource Spec Status
      → Resource Spec Status
      → List String
      → M (KindWorld S Spec Status X) (Returns (Resource Spec Status))
  send_finalizers r existing resource finalizers =
      let (bytes, err) =
        r.library.marshal (finalizers_patch finalizers existing.meta.resource_version) in
      elim err [
        | some e ↦ pure (resource, some e)
        | none ↦ do
          (updated, failed) ←
              request (patch resource.meta.namespace resource.meta.name bytes)
                (r.client.patch resource.meta.namespace resource.meta.name bytes)
          elim failed [
            | some e ↦ act (
                record_event (r.template.failure_object existing updated) event_type_warning
                  "FinalizerUpdateFailed" "Failed to update finalizers for %q: %v"
                  (text resource.meta.name ∷ error_text e ∷ []))
            | none ↦ act (
                record_event updated event_type_normal "FinalizerUpdate" "Updated %q finalizers"
                  (text (r.template.updated_name resource updated) ∷ []))
          ]
          pure (updated, failed)
      ]

  unfoldable pub update_finalizers_filtered :
      ReconcilerImpl S Spec Status X T
      → Resource Spec Status
      → M (KindWorld S Spec Status X) (Returns (Resource Spec Status))
  update_finalizers_filtered r resource = do
    (actual, err) ← read (r.library.lister_get resource.meta.namespace resource.meta.name)
    elim err [
      | some e ↦ pure (resource, some e)
      | none ↦
          elim (next_finalizers r.library.sets r.finalizer_name actual.meta.finalizers
            resource.meta.finalizers) [
              | none ↦ pure (resource, none)
              | some finalizers ↦ send_finalizers r actual resource finalizers
            ]
    ]

  abbrev pub add_finalizer :
      ReconcilerImpl S Spec Status X T → Resource Spec Status → Resource Spec Status
  add_finalizer r resource =
      let finalizers = r.library.sets.new_string resource.meta.finalizers in
      set_finalizers resource (
        r.library.sets.list (
          if is_zero resource.meta.deletion_timestamp
          then r.library.sets.insert finalizers r.finalizer_name
          else finalizers))

  unfoldable pub set_finalizer_if_finalizer :
      ReconcilerImpl S Spec Status X T
      → Resource Spec Status
      → M (KindWorld S Spec Status X) (Returns (Resource Spec Status))
  unfolding update_finalizers_filtered
  set_finalizer_if_finalizer r resource =
      if is_some r.reconciler.finalizer
      then update_finalizers_filtered r (add_finalizer r resource)
      else pure (resource, none)

  -- An event lets the finalizer go if it is nil or a reconciler event of type Normal.
  abbrev pub releases : ReconcilerImpl S Spec Status X T → Option Error → Bool
  releases r none = Bool.true
  releases r (some e) = elim (r.library.event_as e) [
    | none ↦ Bool.false
    | some found ↦ found.event_type == event_type_normal
  ]

  abbrev pub drop_finalizer :
      ReconcilerImpl S Spec Status X T → Resource Spec Status → Option Error → Resource Spec Status
  drop_finalizer r resource reconcile_event =
      let finalizers = r.library.sets.new_string resource.meta.finalizers in
      set_finalizers resource (
        r.library.sets.list (
          if releases r reconcile_event
          then r.library.sets.delete finalizers r.finalizer_name
          else finalizers))

  unfoldable pub clear_finalizer :
      ReconcilerImpl S Spec Status X T
      → Resource Spec Status
      → Option Error
      → M (KindWorld S Spec Status X) (Returns (Resource Spec Status))
  unfolding update_finalizers_filtered
  clear_finalizer r resource reconcile_event =
      if is_some r.reconciler.finalizer
      then (if is_zero resource.meta.deletion_timestamp
          then pure (resource, none)
          else update_finalizers_filtered r (drop_finalizer r resource reconcile_event))
      else pure (resource, none)
