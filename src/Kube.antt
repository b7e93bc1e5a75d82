-- ===== src/Kube.antt =====
-- What the program takes from Go, Kubernetes and Knative as data: errors, objects, JSON values, and
-- the world that the code acts on.
mod Errors
mod Meta
mod Marshal
mod Effects
mod Pointers
pub use Errors.*
pub use Meta.*
pub use Marshal.*
pub use Effects.*
pub use Pointers.*
