-- ===== src/Bucket.antt =====
-- The controller of buckets, operator/bucket: `bucketClient` over the S3 client, and the webhook.
pub mod Lock
pub mod Create
pub mod Observe
pub mod Update
pub mod Delete
pub mod Webhook
pub mod Connect
pub mod Ownership
pub mod Deletion
pub mod Admission
pub mod Convergence
pub mod Fleet
pub mod Feed
