-- ===== src/Examples/Kinds.antt =====
-- A concrete library, client and reconciler of Jobs. The server holds whether this instance is the
-- leader, and one Job, which the cache has too.
use test_concurrent_reconcil.Base.{
  ℕ, ◌+◌, String, Bool, true, false, not, ◌&&◌, none, some, Option, List, [], ◌∷◌, ◌≡◌, refl, ◌==◌,
  string_eq, nat_eq, contains, if◌then◌else◌, arith,
}
use test_concurrent_reconcil.Kube.{
  Resource, Error, wrap, event, not_found, ReconcilerEvent, Returns,
}
use test_concurrent_reconcil.Generated.Types.{
  KindWorld, Interface, Client, StringSets, Library, ReconcilerImpl,
}
use test_concurrent_reconcil.Generated.JobKind.{JobParts, job_impl}
use test_concurrent_reconcil.Generated.Laws.{IsStringSets, Documented, last}

abbrev pub Job : Type 0
Job = Resource (Unit {0}) ℕ

abbrev pub Server : Type 0
Server = Bool × Job

abbrev pub JobWorld : Type 0
JobWorld = KindWorld Server (Unit {0}) ℕ (Unit {0})

abbrev pub remove : List String → String → List String
remove [] x = []
remove (y ∷ l) x = let rest = remove l x in if x == y then rest else y ∷ rest

abbrev pub list_sets : StringSets (List String)
list_sets = record {
  new_string = λ l. l;
  has = contains;
  insert = λ l x. x ∷ l;
  delete = remove;
  list = λ l. l;
}

contains-remove :
    (l : List String) (x y : String) → contains (remove l x) y ≡ (not (x == y) && contains l y)
contains-remove [] x y = ground arith
contains-remove (z ∷ l) x y = ground (
  arith,
  contains-remove l x y,
  string_eq.equals_iff x z,
  string_eq.equals_iff z y,
  string_eq.equals_iff x y,
)

pub list_sets-IsStringSets : IsStringSets list_sets
list_sets-IsStringSets = record {
  has-new_string = λ l x. refl;
  has-insert = λ s x y. refl;
  has-delete = contains-remove;
  contains-list = λ s x. refl;
}

abbrev pub event_in : Error → Option ReconcilerEvent
event_in (event e) = some e
event_in (wrap text e) = event_in e
event_in _ = none

abbrev pub is_absent : Error → Bool
is_absent (not_found group kind name) = true
is_absent _ = false

abbrev pub library : Library Server (Unit {0}) ℕ (Unit {0}) (List String)
library = record {
  split_meta_namespace_key = λ key. if key == "" then none else some ("default", key);
  is_leader_for = λ names s. (s.0, s);
  lister_get = λ namespace name s. ((s.1, none), s);
  is_not_found = is_absent;
  event_as = event_in;
  semantic_deep_equal = λ a b. a == b;
  pre_process_reconcile = λ o. o;
  post_process_reconcile = λ o old. o;
  retry_update_conflicts = λ f. f 0;
  marshal = λ j. ("{}", none);
  sets = list_sets;
}

pub library-Documented : Documented library
library-Documented = record {
  event_as-event = λ d. refl;
  is_not_found-not_found = λ group kind name. refl;
  semantic_refl = λ s. (nat_eq.equals_iff s s).1 refl;
  sets_laws = list_sets-IsStringSets;
  is_conflict = λ e. false;
  retries = λ f w. last refl;
}

abbrev pub client : Client Server Job
client = record {
  get = λ namespace name s. ((s.1, none), s);
  update_status = λ o s. ((o, none), (s.0, o));
  patch = λ namespace name bytes s. ((s.1, none), s);
}

-- The method that the leader calls counts up the status.
abbrev pub count_up : Job → JobWorld → Returns Job × JobWorld
count_up o w = ((record o { status = o.status + 1 }, none), w)

abbrev pub methods : Interface JobWorld Job
methods = record {
  reconcile_kind = count_up;
  finalizer = some count_up;
  read_only_interface = some count_up;
  read_only_finalizer = none;
}

abbrev pub parts : JobParts Server (Unit {0}) ℕ (Unit {0}) (List String)
parts = record {
  library = library;
  client = client;
  reconciler = methods;
  finalizer_name = "jobs";
  skip_status_updates = false;
}

abbrev pub impl : ReconcilerImpl Server (Unit {0}) ℕ (Unit {0}) (List String)
impl = job_impl parts

abbrev pub job_with : List String → Option ℕ → Job
job_with finalizers deleted = record {
  meta = record {
    name = "j";
    namespace = "default";
    labels = none;
    annotations = none;
    finalizers = finalizers;
    resource_version = "7";
    creation_timestamp = 1;
    deletion_timestamp = deleted;
  };
  spec = tt;
  status = 0;
}

abbrev pub world_with : Bool → Job → JobWorld
world_with leads o = record {
  server = (leads, o);
  time = 100;
  readings = 0;
  drift = λ k. 1;
  trace = [];
}
