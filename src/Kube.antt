-- ===== src/Kube.antt =====
-- internal/kubernetes, and what it works on: errors, objects and the outside world.
pub mod Errors
pub mod Objects
pub mod Outside
pub mod Namespaced
pub mod Retry
pub mod Diff
pub mod Wait
pub mod Simulated
