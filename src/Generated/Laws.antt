-- ===== src/Generated/Laws.antt =====
-- What the generated code relies on in the packages that it calls, as they document it.
use test_concurrent_reconcil.Base.{
  ℕ, suc, String, Bool, true, not, ◌&&◌, ◌||◌, Option, some, List, ◌≡◌, ◌==◌, ◌≤◌, string_eq,
  contains,
}
use test_concurrent_reconcil.Kube.{ReconcilerEvent, Error, event, not_found, M, World}
use test_concurrent_reconcil.Generated.Types.{KindWorld, StringSets, Library}

-- `sets.String` is a set: what is in it, and that `List` lists it.
pub record IsStringSets {T : Type 0} (sets : StringSets T) : Type 0 where
  pub has-new_string :
      (l : List String) (x : String) → sets.has (sets.new_string l) x ≡ contains l x
  pub has-insert : (s : T) (x y : String) → sets.has (sets.insert s x) y ≡ (x == y || sets.has s y)
  pub has-delete :
      (s : T) (x y : String) → sets.has (sets.delete s x) y ≡ (not (x == y) && sets.has s y)
  pub contains-list : (s : T) (x : String) → contains (sets.list s) x ≡ sets.has s x

module _ {S R X : Type 0} where
  -- A sleep between two attempts: time passes and others write, but nothing is sent from here.
  pub record Slept (v u : World S R X) : Type 0 where
    pub same_trace : u.trace ≡ v.trace
    pub no_earlier : v.time ≤ u.time

  -- `RetryUpdateConflicts` calls its function with 0, 1, 2, … and returns what some call returned;
  -- it calls again only after a conflict, and sleeps before it does.
  pub data Attempts (is_conflict : Error → Bool) (f : ℕ → M (World S R X) (Option Error))
      : ℕ → World S R X → Option Error → World S R X → Type 0 where
    last :
        {k : ℕ} {w w' : World S R X} {r : Option Error}
        → f k w ≡ (r, w')
        → Attempts is_conflict f k w r w'
    again :
        {k : ℕ} {w v u w' : World S R X} {r : Option Error} (e : Error)
        → f k w ≡ (some e, v)
        → is_conflict e ≡ true
        → Slept v u
        → Attempts is_conflict f (suc k) u r w'
        → Attempts is_conflict f k w r w'

module _ {S Spec Status X T : Type 0} where
  pub record Documented (lib : Library S Spec Status X T) : Type 0 where
    -- `EventAs` finds an event that is the error itself.
    pub event_as-event : (d : ReconcilerEvent) → lib.event_as (event d) ≡ some d
    pub is_not_found-not_found :
        (group kind name : String) → lib.is_not_found (not_found group kind name) ≡ true
    pub semantic_refl : (s : Status) → lib.semantic_deep_equal s s ≡ true
    pub sets_laws : IsStringSets lib.sets
    pub is_conflict : Error → Bool
    pub retries :
        (f : ℕ → M (KindWorld S Spec Status X) (Option Error)) (w : KindWorld S Spec Status X)
        → Attempts is_conflict f 0 w
            (lib.retry_update_conflicts f w).0
            (lib.retry_update_conflicts f w).1
