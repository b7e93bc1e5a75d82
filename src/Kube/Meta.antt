-- ===== src/Kube/Meta.antt =====
-- Kubernetes objects: the metadata that the program reads or writes, and the three parts that the
-- objects of a kind have.
use Prim.Native.Nat.{ℕ}
use Prim.Native.String.{String}
use mathlib.Core.Bool.{Bool, true}
use mathlib.Core.Option.{Option, none, some}
use mathlib.Core.List.{List}
use test_concurrent_reconcil.Base.{◌==◌, nat_eq}
use test_concurrent_reconcil.Base.Maps.{Map}

-- A `map[string]string`; `none` is the nil map.
abbrev pub StringMap : Type 0
StringMap = Option (Map String String)

-- Points in time are nanoseconds since the zero `time.Time`.
pub record ObjectMeta : Type 0 where
  pub name : String
  pub namespace : String
  pub labels : StringMap
  pub annotations : StringMap
  pub finalizers : List String
  pub resource_version : String
  pub creation_timestamp : ℕ
  pub deletion_timestamp : Option ℕ

-- `(*metav1.Time).IsZero`: a nil pointer is zero too.
abbrev pub is_zero : Option ℕ → Bool
is_zero none = true
is_zero (some t) = t == 0

pub record Resource (Spec Status : Type 0) : Type 0 where
  pub meta : ObjectMeta
  pub spec : Spec
  pub status : Status
