-- ===== src/Apis/Lists.antt =====
-- The list types of apis/minio/v1beta1 and apis/provider/v1, without their metadata, and `GetItems`.
use provider_minio.Base.{String, List, map}
use provider_minio.Runtime.{ObjectMeta}
use provider_minio.Apis.Bucket.{Bucket}
use provider_minio.Apis.Policy.{Policy}
use provider_minio.Apis.User.{User}
use provider_minio.Apis.ServiceAccount.{ServiceAccount}
use provider_minio.Apis.Notification.{Notification}
use provider_minio.Apis.ProviderConfig.{ProviderConfig}
use provider_minio.Apis.Managed.{Managed, bucket, policy, user, service_account}

pub record BucketList : Type 0 where
  pub items : List Bucket

pub record PolicyList : Type 0 where
  pub items : List Policy

pub record UserList : Type 0 where
  pub items : List User

pub record ServiceAccountList : Type 0 where
  pub items : List ServiceAccount

pub record NotificationConfigurationList : Type 0 where
  pub items : List Notification

pub record ProviderConfigList : Type 0 where
  pub items : List ProviderConfig

-- The embedded `TypedProviderConfigUsage` is a reference to a configuration and one to a resource.
pub record ProviderConfigUsage : Type 0 where
  pub meta : ObjectMeta
  pub provider_config_reference : String
  pub resource_kind : String
  pub resource_name : String

pub record ProviderConfigUsageList : Type 0 where
  pub items : List ProviderConfigUsage

-- `GetItems`, which the list of notification configurations does not have.
unfoldable bucket_items : BucketList → List Managed
bucket_items l = map bucket l.items

unfoldable policy_items : PolicyList → List Managed
policy_items l = map policy l.items

unfoldable service_account_items : ServiceAccountList → List Managed
service_account_items l = map service_account l.items

unfoldable user_items : UserList → List Managed
user_items l = map user l.items
