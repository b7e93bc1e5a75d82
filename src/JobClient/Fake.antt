-- ===== src/JobClient/Fake.antt =====
-- fake/fake_job.go: the action that each method of `FakeJobs` invokes, and what it makes of the
-- answer. `J` stands for Job, `LM` for the metadata of a list.
use test_concurrent_reconcil.Base.{
  String, Bool, Option, none, some, List, [], ◌∷◌, ◌++◌, if◌then◌else◌,
}
use test_concurrent_reconcil.Kube.{Error, Returns, M, pure, ◌>>=◌}
use test_concurrent_reconcil.JobClient.Typed.{ListOptions}

-- `testing.Action`s on `jobsResource`, as their constructors take them; a subresource or its absence
-- is a list of names.
pub data FakeAction (J : Type 0) : Type 0 where
  get_action : String → String → FakeAction J
  list_action : String → ListOptions → FakeAction J
  watch_action : String → ListOptions → FakeAction J
  create_action : String → J → FakeAction J
  update_action : List String → String → J → FakeAction J
  delete_action : String → String → FakeAction J
  delete_collection_action : String → ListOptions → FakeAction J
  patch_action : String → String → String → String → List String → FakeAction J

pub record JobList (J LM : Type 0) : Type 0 where
  pub list_meta : LM
  pub items : List J

-- `testing.Fake`: invoked for a Job, for a list (`none` is a nil object), or watched; and the label
-- selector of list options (`none` is nil).
pub record Fake (S J LM W Sel : Type 0) : Type 0 where
  pub invokes : FakeAction J → M S (Returns (Option J))
  pub invokes_list : FakeAction J → M S (Returns (Option (JobList J LM)))
  pub invokes_watch : FakeAction J → M S (Returns W)
  pub label_of : ListOptions → Option Sel
  pub everything : Sel
  pub matches : Sel → J → Bool

pub record FakeJobs (S J LM W Sel : Type 0) : Type 0 where
  pub fake : Fake S J LM W Sel
  pub ns : String

module _ {S J LM W Sel : Type 0} where
  abbrev pub fake_get : FakeJobs S J LM W Sel → String → M S (Returns (Option J))
  fake_get c name = c.fake.invokes (get_action c.ns name)

  -- `if label == nil { label = labels.Everything() }`
  abbrev pub selector : Fake S J LM W Sel → ListOptions → Sel
  selector f opts = elim (f.label_of opts) [ none ↦ f.everything | some label ↦ label ]

  -- The loop over the items, which appends those that match.
  unfoldable pub append_matching : Fake S J LM W Sel → Sel → List J → List J → List J
  append_matching f label kept [] = kept
  append_matching f label kept (item ∷ items) =
      append_matching f label (if f.matches label item then kept ++ item ∷ [] else kept) items

  abbrev pub filtered :
      Fake S J LM W Sel
      → ListOptions
      → Returns (Option (JobList J LM))
      → Returns (Option (JobList J LM))
  filtered f opts (none, err) = (none, err)
  filtered f opts (some found, err) = (
    some (record {
      list_meta = found.list_meta;
      items = append_matching f (selector f opts) [] found.items;
    }),
    err,
  )

  abbrev pub fake_list : FakeJobs S J LM W Sel → ListOptions → M S (Returns (Option (JobList J LM)))
  fake_list c opts = do
    answer ← c.fake.invokes_list (list_action c.ns opts)
    pure (filtered c.fake opts answer)

  abbrev pub fake_watch : FakeJobs S J LM W Sel → ListOptions → M S (Returns W)
  fake_watch c opts = c.fake.invokes_watch (watch_action c.ns opts)

  abbrev pub fake_create : FakeJobs S J LM W Sel → J → M S (Returns (Option J))
  fake_create c job = c.fake.invokes (create_action c.ns job)

  abbrev pub fake_update : FakeJobs S J LM W Sel → J → M S (Returns (Option J))
  fake_update c job = c.fake.invokes (update_action [] c.ns job)

  abbrev pub fake_update_status : FakeJobs S J LM W Sel → J → M S (Returns (Option J))
  fake_update_status c job = c.fake.invokes (update_action ("status" ∷ []) c.ns job)

  abbrev pub fake_delete : FakeJobs S J LM W Sel → String → M S (Option Error)
  fake_delete c name = do (ignored, err) ← c.fake.invokes (delete_action c.ns name); pure err

  abbrev pub fake_delete_collection : FakeJobs S J LM W Sel → ListOptions → M S (Option Error)
  fake_delete_collection c opts = do
    (ignored, err) ← c.fake.invokes_list (delete_collection_action c.ns opts)
    pure err

  abbrev pub fake_patch :
      FakeJobs S J LM W Sel → String → String → String → List String → M S (Returns (Option J))
  fake_patch c name pt bytes subresources =
      c.fake.invokes (patch_action c.ns name pt bytes subresources)
