-- ===== src/Tests.antt =====
-- The theorems at concrete data, over small servers that keep their state in maps.
mod BucketServer
mod Buckets
mod Users
mod Roles
mod Endpoints
mod Policies
mod Accounts
mod Notifications
mod Reconciles
mod Setups
mod Traces
mod AdminServer
mod Fleets
