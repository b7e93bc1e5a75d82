-- ===== src/JobClient.antt =====
-- The generated clients of Jobs: pkg/client/clientset/versioned/typed/job/v1alpha1/job.go, its fake
-- in fake/fake_job.go, and pkg/client/listers/job/v1alpha1/job.go.
pub mod Typed
pub mod Fake
pub mod Lister
pub mod Absent
pub mod Requests
