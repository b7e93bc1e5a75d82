-- ===== src/RunController/Laws.antt =====
-- What the controller of Runs relies on in knative.dev/pkg and at the API server, as they document
-- it.
use test_concurrent_reconcil.Base.{ℕ, ◌*◌, ◌/◌, String, true, none, some, ◌≡◌}
use test_concurrent_reconcil.Kube.{is_zero}
use test_concurrent_reconcil.Generated.Types.{Client, Library}
use test_concurrent_reconcil.Generated.Stored.{IsStore}
use test_concurrent_reconcil.RunReconciler.Types.{Run, RunSpec, RunStatus, Emit, RunWorld, second}

-- `metav1.Time` is written in RFC 3339, which keeps whole seconds.
abbrev pub whole_seconds : ℕ → ℕ
whole_seconds t = t / second * second

module _ {P C : Type 0} where
  -- The same Run, but for what its status has besides the start time: the observed generation and
  -- the conditions.
  pub record IsGroomed (o o' : Run P C) : Type 0 where
    pub same_meta : o'.meta ≡ o.meta
    pub same_spec : o'.spec ≡ o.spec
    pub same_start : o'.status.start_time ≡ o.status.start_time

module _ {S P C Cond T : Type 0} (lib : Library S (RunSpec P) (RunStatus C) (Emit Cond) T) where
  -- `PreProcessReconcile` marks the top condition as unknown for a new generation;
  -- `PostProcessReconcile` sets the observed generation and the transition times of the conditions.
  pub record OnlyGrooms : Type 0 where
    pub pre : (o : Run P C) → IsGroomed o (lib.pre_process_reconcile o)
    pub post : (o original : Run P C) → IsGroomed o (lib.post_process_reconcile o original)

  -- The names that the key holds, a world in which this instance leads for them, and the Run that
  -- the lister then has, not deleted.
  pub record IsListed (key : String) (run : Run P C) (w : RunWorld S P C Cond) : Type 0 where
    pub names : String × String
    pub valid : lib.split_meta_namespace_key key ≡ some names
    pub leads : (lib.is_leader_for names w.server).0 ≡ true
    pub listed :
        (lib.lister_get names.0 names.1 (lib.is_leader_for names w.server).1).0 ≡ (run, none)
    pub not_deleted : is_zero run.meta.deletion_timestamp ≡ true

module _ {S P C : Type 0} where
  -- The API server stores a Run's status as its encoding keeps it, and of its start time the whole
  -- seconds.
  pub record IsRunStore (client : Client S (Run P C)) (names : String × String)
      (status_at : S → RunStatus C) : Type 0 where
    pub kept : RunStatus C → RunStatus C
    pub store : IsStore client names kept status_at
    pub keeps_seconds :
        (s : RunStatus C) (t : ℕ)
        → s.start_time ≡ some t
        → (kept s).start_time ≡ some (whole_seconds t)
