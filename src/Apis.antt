-- ===== src/Apis.antt =====
-- The custom resources of apis/minio/v1beta1 and apis/provider/v1 as records. Lists has the
-- list types, and Register the names under which the types are registered. The generated deep copies
-- are left out.
pub mod Bucket
pub mod Policy
pub mod User
pub mod ServiceAccount
pub mod Notification
pub mod ProviderConfig
pub mod Managed
pub mod Conditions
pub mod Register
pub mod Lists
