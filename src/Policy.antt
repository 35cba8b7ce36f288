-- ===== src/Policy.antt =====
-- The controller of canned policies, operator/policy: `policyClient` over the admin client and the
-- package of IAM policies, and the webhook.
pub mod Render
pub mod Create
pub mod Observe
pub mod Update
pub mod Delete
pub mod Webhook
pub mod Connect
pub mod Ownership
pub mod Convergence
pub mod Events
pub mod Fleet
