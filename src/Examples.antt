-- ===== src/Examples.antt =====
-- Concrete instances, and the theorems at them.
mod Kinds
mod Generated
mod Runs
mod Jobs
mod Limiter
mod Clients
mod Copies
mod Factory
mod Clientsets
mod Controllers
mod Resting
mod Events
mod Programs
mod StartUp
