-- ===== src/Reconcile.antt =====
-- reconcile/src/lib.rs: the halt policy.
pub mod Config
pub mod Guards
pub mod Policy
