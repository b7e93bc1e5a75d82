-- ===== src/Clientset/Fake.antt =====
-- pkg/client/clientset/versioned/fake/clientset_generated.go: the fake clientset over an object
-- tracker. `T` stands for trackers, `Ob` for objects, `Wt` for watches.
use test_concurrent_reconcil.Base.{String, Bool, true, false, Option, none, some, List, [], ◌∷◌}
use test_concurrent_reconcil.Kube.{Error, Returns, M, pure, ◌>>=◌}
use test_concurrent_reconcil.Clientset.{Outcome, returned, panicked}

-- `testing.ObjectTracker` of client-go.
pub record ObjectTracker (W T Ob Wt : Type 0) : Type 0 where
  pub new_object_tracker : M W T
  pub add : T → Ob → M W (Option Error)
  pub watch : T → String → String → M W (Returns Wt)

-- `Clientset`, with the two chains of its `testing.Fake`: for a verb and a resource the tracker that
-- `ObjectReaction` acts on, and for a resource the tracker that `react_to_watch` asks.
pub record FakeClientset (T : Type 0) : Type 0 where
  pub reaction_chain : List (String × String × T)
  pub watch_reaction_chain : List (String × T)
  pub tracker : T

module _ {W T Ob Wt : Type 0} (lib : ObjectTracker W T Ob Wt) where
  abbrev pub add_objects : T → List Ob → M W (Outcome (Unit {0}))
  add_objects o [] = pure (returned tt)
  add_objects o (obj ∷ objects) = do
    failed ← lib.add o obj
    elim failed [ some err ↦ pure (panicked err) | none ↦ add_objects o objects ]

  abbrev pub watched : Returns Wt → Bool × Option Wt × Option Error
  watched (watch, some err) = (false, none, some err)
  watched (watch, none) = (true, some watch, none)

  -- The function handed to `AddWatchReactor`, on an action's resource and namespace.
  abbrev pub react_to_watch : T → String → String → M W (Bool × Option Wt × Option Error)
  react_to_watch o gvr ns = do made ← lib.watch o gvr ns; pure (watched made)

  abbrev pub new_simple_clientset : List Ob → M W (Outcome (FakeClientset T))
  new_simple_clientset objects = do
    o ← lib.new_object_tracker
    added ← add_objects o objects
    elim added [
      | panicked err ↦ pure (panicked err)
      | returned done ↦ pure (
          returned (record {
            reaction_chain = ("*", "*", o) ∷ [];
            watch_reaction_chain = ("*", o) ∷ [];
            tracker = o;
          }))
    ]
