-- ===== src/ServiceAccount.antt =====
-- The controller of service accounts, operator/serviceaccount: `serviceAccountClient` over the
-- admin client, and the webhook.
pub mod Identity
pub mod Create
pub mod Observe
pub mod Update
pub mod Delete
pub mod Webhook
pub mod Connect
pub mod Keys
pub mod Drift
pub mod Removal
