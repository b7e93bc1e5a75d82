-- ===== src/Programs.antt =====
-- The two programs under cmd: what each hands to the main functions of knative.dev/pkg.
pub mod Webhook
pub mod Manager
pub mod Unhandled
