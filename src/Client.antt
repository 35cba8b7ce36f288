-- ===== src/Client.antt =====
-- What the program calls and does not implement, as records of functions over the state `S` of the
-- outside world. A call that reads is a function of the state; a call that writes returns the new
-- state, also where it fails.
pub mod S3
pub mod Admin
pub mod Iam
pub mod Kube
pub mod Rbac
pub mod Manager
pub mod Host
pub mod Telemetry
