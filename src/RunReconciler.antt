-- ===== src/RunReconciler.antt =====
-- pkg/reconciler/job/job.go: the reconciler of Tekton Runs that refer to a Job.
pub mod Types
pub mod Labels
pub mod Request
pub mod Invoke
pub mod Kind
pub mod Throttle
pub mod Wanted
pub mod Clock
pub mod Safety
pub mod Failures
pub mod Merging
pub mod Keeps
pub mod Skew
pub mod Sending
