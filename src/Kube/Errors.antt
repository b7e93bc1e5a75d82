-- ===== src/Kube/Errors.antt =====
-- Go's `error` values as far as the program builds or inspects them. A `nil` error is `none`.
use Prim.Native.String.{String}
use mathlib.Core.Option.{Option}
use mathlib.Core.List.{List}

-- `reconciler.ReconcilerEvent`: its arguments are kept as text.
pub record ReconcilerEvent : Type 0 where
  pub event_type : String
  pub reason : String
  pub format : String
  pub args : List String

-- `v1.EventTypeNormal` and `v1.EventTypeWarning`
abbrev pub event_type_normal : String
event_type_normal = "Normal"

abbrev pub event_type_warning : String
event_type_warning = "Warning"

pub data Error : Type 0 where
  -- `fmt.Errorf` with no `%w`, and errors that other code returns
  message : String → Error
  -- `fmt.Errorf("…: %w", err)`
  wrap : String → Error → Error
  -- a `*reconciler.ReconcilerEvent`
  event : ReconcilerEvent → Error
  -- `controller.NewSkipKey(key)`
  skip_key : String → Error
  -- `errors.NewNotFound(resource, name)`, with the resource's group and name
  not_found : String → String → String → Error

-- A Go function that returns `(A, error)` returns both, whatever the error is.
abbrev pub Returns : Type 0 → Type 0
Returns A = A × Option Error

-- The type assertion `err.(*reconciler.ReconcilerEvent)`.
abbrev pub is_event : Error → Option ReconcilerEvent
is_event (event e) = Option.some e
is_event _ = Option.none
