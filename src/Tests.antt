-- ===== src/Tests.antt =====
-- Concrete libraries, a concrete API server and concrete workloads, at which the theorems are applied.
mod Toy
mod Webhook
mod Build
mod Reconcile
mod Reliable
mod Spec
mod Startup
mod Sample
mod DeepCopy
mod Interleaved
