-- ===== src/Apis/Policy.antt =====
-- apis/minio/v1beta1/policy_types.go
use provider_minio.Base.{String}
use provider_minio.Runtime.{ObjectMeta, ManagedSpec, Conditions}

pub record PolicyParameters : Type 0 where
  pub allow_bucket : String
  pub raw_policy : String

pub record PolicySpec : Type 0 where
  pub managed : ManagedSpec
  pub for_provider : PolicyParameters

pub record PolicyProviderStatus : Type 0 where
  pub policy : String

pub record PolicyStatus : Type 0 where
  pub conditions : Conditions
  pub at_provider : PolicyProviderStatus

pub record Policy : Type 0 where
  pub meta : ObjectMeta
  pub spec : PolicySpec
  pub status : PolicyStatus
