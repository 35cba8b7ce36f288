-- ===== src/Apis/Notification.antt =====
-- apis/minio/v1beta1/notificationconfiguration_types.go
use provider_minio.Base.{ℕ, String, List, Option}
use provider_minio.Runtime.{ObjectMeta, ManagedSpec, Conditions}

pub record FilterRule : Type 0 where
  pub name : String
  pub value : String

-- A nil slice of rules is the empty list: the program ranges over it and takes its length.
pub record KeyFilter : Type 0 where
  pub filter_rules : List FilterRule

pub record NotificationFilter : Type 0 where
  pub key : Option KeyFilter

pub record WebhookConfiguration : Type 0 where
  pub id : String
  pub endpoint : String
  pub auth_token : Option String
  pub user_agent : Option String

pub record QueueConfiguration : Type 0 where
  pub id : String
  pub queue_arn : String

pub record TopicConfiguration : Type 0 where
  pub id : String
  pub topic_arn : String

pub record NotificationParameters : Type 0 where
  pub bucket_name : String
  pub webhook_configuration : Option WebhookConfiguration
  pub queue_configuration : Option QueueConfiguration
  pub topic_configuration : Option TopicConfiguration
  pub events : List String
  pub filter : Option NotificationFilter

pub record NotificationSpec : Type 0 where
  pub managed : ManagedSpec
  pub for_provider : NotificationParameters

pub record NotificationProviderStatus : Type 0 where
  pub configuration_id : String
  pub bucket_name : String
  pub last_updated : Option ℕ

pub record NotificationStatus : Type 0 where
  pub conditions : Conditions
  pub at_provider : NotificationProviderStatus

-- `NotificationConfiguration`
pub record Notification : Type 0 where
  pub meta : ObjectMeta
  pub spec : NotificationSpec
  pub status : NotificationStatus
