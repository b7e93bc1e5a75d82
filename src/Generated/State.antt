-- ===== src/Generated/State.antt =====
-- state.go: who this instance is for one key, and which method that calls for.
use test_concurrent_reconcil.Base.{
  String, Bool, true, false, not, ◌&&◌, Option, none, some, if◌then◌else◌, ◌≡◌,
}
use test_concurrent_reconcil.Kube.{Resource, M, pure, read, is_zero, ◌>>=◌}
use test_concurrent_reconcil.Generated.Types.{DoReconcile, Interface, ReconcilerImpl, KindWorld}

-- The two results of a type assertion such as `r.reconciler.(ReadOnlyInterface)` are one option:
-- `isROI` is `is_some roi`.
pub record State (W R : Type 0) : Type 0 where
  pub key : String
  pub namespace : String
  pub name : String
  pub reconciler : Interface W R
  pub roi : Option (DoReconcile W R)
  pub rof : Option (DoReconcile W R)
  pub is_leader : Bool

abbrev pub is_some {ℓ} : {A : Type ℓ} → Option A → Bool
is_some none = false
is_some (some a) = true

-- The method's name with the method; `unknown` has none.
pub data Method (W R : Type 0) : Type 0 where
  do_reconcile_kind : DoReconcile W R → Method W R
  do_observe_kind : DoReconcile W R → Method W R
  do_finalize_kind : DoReconcile W R → Method W R
  do_observe_finalize_kind : DoReconcile W R → Method W R
  unknown : Method W R

module _ {W R : Type 0} where
  unfoldable pub is_not_leader_nor_observer : State W R → Bool
  is_not_leader_nor_observer s = not s.is_leader && not (is_some s.roi) && not (is_some s.rof)

  abbrev pub or_unknown : (DoReconcile W R → Method W R) → Option (DoReconcile W R) → Method W R
  or_unknown c none = unknown
  or_unknown c (some do_it) = c do_it

module _ {W Spec Status : Type 0} where
  unfoldable pub reconcile_method_for :
      State W (Resource Spec Status) → Resource Spec Status → Method W (Resource Spec Status)
  reconcile_method_for s o =
      if is_zero o.meta.deletion_timestamp
      then (if s.is_leader
          then do_reconcile_kind s.reconciler.reconcile_kind
          else or_unknown do_observe_kind s.roi)
      else (if s.is_leader && is_some s.reconciler.finalizer
          then or_unknown do_finalize_kind s.reconciler.finalizer
          else if not s.is_leader && is_some s.rof
          then or_unknown do_observe_finalize_kind s.rof
          else unknown)

module _ {S Spec Status X T : Type 0} where
  abbrev pub state_for :
      ReconcilerImpl S Spec Status X T
      → String
      → String × String
      → Bool
      → State (KindWorld S Spec Status X) (Resource Spec Status)
  state_for r key (namespace, name) is_leader = record {
    key = key;
    namespace = namespace;
    name = name;
    reconciler = r.reconciler;
    roi = r.reconciler.read_only_interface;
    rof = r.reconciler.read_only_finalizer;
    is_leader = is_leader;
  }

  abbrev pub state_of :
      ReconcilerImpl S Spec Status X T
      → String
      → Option (String × String)
      → M
          (KindWorld S Spec Status X)
          (Option (State (KindWorld S Spec Status X) (Resource Spec Status)))
  state_of r key none = pure none
  state_of r key (some names) = do
    is_leader ← read (r.library.is_leader_for names)
    pure (some (state_for r key names is_leader))

  -- `none` stands for the error "invalid resource key".
  unfoldable pub new_state :
      String
      → ReconcilerImpl S Spec Status X T
      → M
          (KindWorld S Spec Status X)
          (Option (State (KindWorld S Spec Status X) (Resource Spec Status)))
  new_state key r = state_of r key (r.library.split_meta_namespace_key key)

  pub new_state_from :
      (r : ReconcilerImpl S Spec Status X T) (key : String) (names : String × String)
      (w : KindWorld S Spec Status X)
      → r.library.split_meta_namespace_key key ≡ some names
      → new_state key r w ≡ (
        some (state_for r key names (r.library.is_leader_for names w.server).0),
        record w { server = (r.library.is_leader_for names w.server).1 },
      )
  unfolding new_state
  new_state_from r key names w valid = rw valid
