-- ===== src/Generated.antt =====
-- The generated reconcilers of the two kinds, pkg/client/injection/reconciler/job/v1alpha1/job and
-- pkg/client/injection/reconciler/pipeline/v1alpha1/run. Both come from one template; where their
-- texts differ, the difference is a field of `Template`.
pub mod Types
pub mod State
pub mod Finalizers
pub mod Status
pub mod Reconcile
pub mod Laws
pub mod Selection
pub mod Filtered
pub mod Updates
pub mod Stored
pub mod Clock
pub mod Outcome
pub mod Leadership
pub mod RunKind
pub mod JobKind
pub mod Controller
pub mod Recorder
pub mod Kinds
pub mod Promotion
pub mod Options
