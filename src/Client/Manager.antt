-- ===== src/Client/Manager.antt =====
-- The manager of controller-runtime, with the builders of controllers and webhooks.
use provider_minio.Base.{String, Option, ℕ, List}
use provider_minio.Apis.Register.{GroupVersionKind}
use provider_minio.Runtime.{Result}

-- What a controller is made of: its name, the type that it is for, the kinds that its reconciler is told
-- of, and where they are set the poll
-- interval and the grace period for creations, in seconds, and the number of reconciles at a time.
pub record ControllerSpec : Type 0 where
  pub name : String
  pub kind : String
  pub kinds : List GroupVersionKind
  pub poll_interval : Option ℕ
  pub creation_grace_period : Option ℕ
  pub max_concurrent_reconciles : Option ℕ

-- `controller_name` is `providerconfig.ControllerName` of crossplane-runtime, and
-- `managed_controller_name` is `managed.ControllerName`. A webhook is for a type,
-- and a check has a name.
pub record Manager (S : Type 0) : Type 0 where
  pub controller_name : String → String
  pub managed_controller_name : String → String
  pub add_controller : S → ControllerSpec → Result (Unit {0}) × S
  pub add_webhook : S → String → Result (Unit {0}) × S
  pub add_healthz_check : S → String → Result (Unit {0}) × S
  pub add_readyz_check : S → String → Result (Unit {0}) × S
  pub start : S → Result (Unit {0}) × S
