-- ===== src/Client/Host.antt =====
-- What the command takes from its surroundings: the flags that kingpin parses, the configuration of the
-- API server, the types of Kubernetes, the constructor of the manager, and the environment.
use provider_minio.Base.{String, Bool, ℕ, List}
use provider_minio.Runtime.{Result}

-- The durations are in seconds.
pub record Flags : Type 0 where
  pub debug : Bool
  pub sync_period : ℕ
  pub poll_interval : ℕ
  pub leader_elect : Bool
  pub max_reconcile_rate : ℕ
  pub enable_management_policies : Bool

-- `ctrl.Options`
pub record ManagerOptions : Type 0 where
  pub leader_election : Bool
  pub leader_election_id : String
  pub sync_period : ℕ
  pub lease_duration : ℕ
  pub renew_deadline : ℕ
  pub webhook_port : ℕ
  pub webhook_cert_dir : String

-- `add_known_types` is `AddKnownTypes` and `AddToGroupVersion` of a group and a version.
pub record Host (S : Type 0) : Type 0 where
  pub parse_flags : Result Flags
  pub getenv : String → String
  pub get_config : S → Result (Unit {0})
  pub add_kubernetes_types : S → Result (Unit {0})
  pub add_known_types : S → String → String → List String → S
  pub new_manager : S → ManagerOptions → Result (Unit {0}) × S
