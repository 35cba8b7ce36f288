-- ===== src/User.antt =====
-- The controller of users, operator/user: `userClient` over the admin client, the Kubernetes client
-- and the S3 client that a user's credentials are tried with, the webhook, and the connector.
pub mod Policies
pub mod Create
pub mod Observe
pub mod Update
pub mod Delete
pub mod Webhook
pub mod Connect
pub mod Listing
pub mod Ownership
pub mod Panics
pub mod Admission
pub mod Convergence
pub mod Keeping
pub mod Fleet
