-- ===== src/Reconcile.antt =====
-- The clients that the five connectors return, behind the interface ExternalClient of
-- crossplane-runtime, and the rounds in which its reconciler calls them; also a Policy and a User on
-- one MinIO (Dependency).
pub mod Client
pub mod Family
pub mod Rounds
pub mod Quiet
pub mod Settled
pub mod Arrival
pub mod PolicyArrival
pub mod Stuck
pub mod Removal
pub mod Departure
pub mod Dependency
