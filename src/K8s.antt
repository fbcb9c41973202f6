-- ===== src/K8s.antt =====
-- The package internal/k8s: the Configuration of the Ingress Controller and what it is made of.
pub mod Objects
pub mod Resource
pub mod Contest
pub mod State
pub mod Minions
pub mod Hosts
pub mod Changes
pub mod FieldErrors
pub mod Annotations
pub mod Validation
pub mod Problems
pub mod Listeners
pub mod Rebuild
pub mod Operations
pub mod References
pub mod Secrets
pub mod AppProtect
pub mod Examples
