-- ===== src/JobClient/Lister.antt =====
-- pkg/client/listers/job/v1alpha1/job.go: the lister of Jobs over an indexer.
use Prim.Native.String.{◌++◌}
use test_concurrent_reconcil.Base.{String, Option, none, some, List, [], ◌∷◌}
use mathlib.Core.List.{◌++◌ as append}
use test_concurrent_reconcil.Kube.{Error, not_found, Returns, M, pure, ◌>>=◌}

-- `cache.Indexer` and the functions of the cache package on it. `ListAll` and `ListAllByNamespace`
-- give the objects to which they apply their function, and their error.
pub record Indexer (S J Sel : Type 0) : Type 0 where
  pub get_by_key : String → M S (Option J × Option Error)
  pub list_all : Sel → M S (Returns (List J))
  pub list_all_by_namespace : String → Sel → M S (Returns (List J))

-- The appending function, applied to each object.
abbrev pub collect : {J : Type 0} → List J → List J → List J
collect ret [] = ret
collect ret (m ∷ rest) = collect (append ret (m ∷ [])) rest

abbrev pub found_job : {J : Type 0} → J → String → Option J × Option Error → Returns J
found_job no_job name (obj, some err) = (no_job, some err)
found_job no_job name (none, none) = (no_job, some (not_found "custom.tekton.dev" "job" name))
found_job no_job name (some obj, none) = (obj, none)

module _ {S J Sel : Type 0} where
  unfoldable pub list_jobs : Indexer S J Sel → Sel → M S (Returns (List J))
  list_jobs indexer selector = do
    (visited, err) ← indexer.list_all selector
    pure (collect [] visited, err)

  unfoldable pub list_namespace_jobs : Indexer S J Sel → String → Sel → M S (Returns (List J))
  list_namespace_jobs indexer namespace selector = do
    (visited, err) ← indexer.list_all_by_namespace namespace selector
    pure (collect [] visited, err)

  -- `no_job` stands for the nil pointer.
  unfoldable pub get_namespace_job : J → Indexer S J Sel → String → String → M S (Returns J)
  get_namespace_job no_job indexer namespace name = do
    found ← indexer.get_by_key (namespace ++ "/" ++ name)
    pure (found_job no_job name found)
