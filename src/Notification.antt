-- ===== src/Notification.antt =====
-- The controller of bucket notifications, operator/notificationconfiguration: `notificationClient`
-- over the S3 client, the validation of events, and the webhook.
pub mod Lambda
pub mod Events
pub mod Match
pub mod Create
pub mod Observe
pub mod Update
pub mod Delete
pub mod Validation
pub mod Webhook
pub mod Connect
pub mod Entry
pub mod Lists
pub mod Unnamed
pub mod Growth
pub mod Overwrite
pub mod Admission
