-- ===== src/Setup.antt =====
-- operator/operator.go and the files setup.go of operator/: the controllers and the webhooks that are
-- added to the manager.
pub mod Controllers
pub mod Names
