-- ===== src/Kube/Marshal.antt =====
-- JSON values that the program marshals.
use Prim.Native.String.{String}
use mathlib.Core.Option.{none, some}
use mathlib.Core.List.{List, [], ◌∷◌}
use test_concurrent_reconcil.Base.Maps.{Map}
use test_concurrent_reconcil.Kube.Meta.{StringMap}

mutual
  pub data Json : Type 0 where
    null : Json
    str : String → Json
    arr : List String → Json
    obj : Fields → Json

  pub data Fields : Type 0 where
    end : Fields
    field : String → Json → Fields → Fields

abbrev pub string_fields : Map String String → Fields
string_fields [] = end
string_fields ((k, v) ∷ m) = field k (str v) (string_fields m)

-- a nil map is `null`
abbrev pub string_map : StringMap → Json
string_map none = null
string_map (some m) = obj (string_fields m)
