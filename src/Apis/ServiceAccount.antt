-- ===== src/Apis/ServiceAccount.antt =====
-- apis/minio/v1beta1/serviceaccount_types.go. An instant is a number.
use provider_minio.Base.{ℕ, String, Bool, Option, is_empty, if◌then◌else◌}
use provider_minio.Runtime.{ObjectMeta, ManagedSpec, Conditions}

pub record ServiceAccountParameters : Type 0 where
  pub target_user : String
  pub access_key : String
  pub secret_key : String
  pub name : String
  pub description : String
  pub policy : String
  pub expiration : Option ℕ
  pub write_connection_secrets_to_ref : Option (String × String)

pub record ServiceAccountSpec : Type 0 where
  pub managed : ManagedSpec
  pub for_provider : ServiceAccountParameters

pub record ServiceAccountProviderStatus : Type 0 where
  pub access_key : String
  pub account_status : String
  pub parent_user : String
  pub implied_policy : Bool
  pub policy : String
  pub expiration : Option ℕ

pub record ServiceAccountStatus : Type 0 where
  pub conditions : Conditions
  pub at_provider : ServiceAccountProviderStatus

pub record ServiceAccount : Type 0 where
  pub meta : ObjectMeta
  pub spec : ServiceAccountSpec
  pub status : ServiceAccountStatus

unfoldable pub get_access_key : ServiceAccount → String
get_access_key a =
    if is_empty a.spec.for_provider.access_key then a.meta.name else a.spec.for_provider.access_key
