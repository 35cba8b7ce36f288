-- ===== src/Apis/Register.antt =====
-- apis/minio/v1beta1/groupversion_info.go and register.go, and the group of apis/provider/v1: the names
-- under which the types are registered.
use provider_minio.Base.{String, ◌<>◌, List, [], ◌∷◌}

abbrev pub group : String
group = "minio.m.crossplane.io"

abbrev pub version : String
version = "v1beta1"

abbrev pub provider_group : String
provider_group = "minio.crossplane.io"

abbrev pub provider_version : String
provider_version = "v1"

-- `schema.GroupVersionKind`
pub record GroupVersionKind : Type 0 where
  pub group : String
  pub version : String
  pub kind : String

-- `GroupVersion.String`, of a group that is not empty.
abbrev group_version : String → String → String
group_version of_group of_version = of_group <> ("/" <> of_version)

abbrev minio_kind : String → GroupVersionKind
minio_kind kind = record { group = group; version = version; kind = kind }

abbrev provider_kind : String → GroupVersionKind
provider_kind kind = record { group = provider_group; version = provider_version; kind = kind }

-- `Kind + "." + SchemeGroupVersion.String()`
abbrev minio_api_version : String → String
minio_api_version kind = kind <> ("." <> group_version group version)

abbrev provider_api_version : String → String
provider_api_version kind = kind <> ("." <> group_version provider_group provider_version)

-- `GroupKind.String`, of a group that is not empty.
abbrev group_kind : String → String → String
group_kind kind of_group = kind <> ("." <> of_group)

abbrev pub bucket_type : String
bucket_type = "Bucket"

abbrev pub bucket_group_kind : String
bucket_group_kind = group_kind bucket_type group

abbrev pub bucket_kind_api_version : String
bucket_kind_api_version = minio_api_version bucket_type

abbrev pub bucket_group_version_kind : GroupVersionKind
bucket_group_version_kind = minio_kind bucket_type

abbrev pub user_type : String
user_type = "User"

abbrev pub user_group_kind : String
user_group_kind = group_kind user_type group

abbrev pub user_kind_api_version : String
user_kind_api_version = minio_api_version user_type

abbrev pub user_group_version_kind : GroupVersionKind
user_group_version_kind = minio_kind user_type

abbrev pub service_account_type : String
service_account_type = "ServiceAccount"

abbrev pub service_account_group_kind : String
service_account_group_kind = group_kind service_account_type group

abbrev pub service_account_kind_api_version : String
service_account_kind_api_version = minio_api_version service_account_type

abbrev pub service_account_group_version_kind : GroupVersionKind
service_account_group_version_kind = minio_kind service_account_type

abbrev pub notification_configuration_type : String
notification_configuration_type = "NotificationConfiguration"

abbrev pub notification_configuration_group_kind : String
notification_configuration_group_kind = group_kind notification_configuration_type group

abbrev pub notification_configuration_kind_api_version : String
notification_configuration_kind_api_version = minio_api_version notification_configuration_type

abbrev pub notification_configuration_group_version_kind : GroupVersionKind
notification_configuration_group_version_kind = minio_kind notification_configuration_type

abbrev pub policy_type : String
policy_type = "Policy"

abbrev pub policy_group_kind : String
policy_group_kind = group_kind policy_type group

abbrev pub policy_kind_api_version : String
policy_kind_api_version = minio_api_version policy_type

abbrev pub policy_group_version_kind : GroupVersionKind
policy_group_version_kind = minio_kind policy_type

abbrev pub provider_config_type : String
provider_config_type = "ProviderConfig"

abbrev pub provider_config_group_kind : String
provider_config_group_kind = group_kind provider_config_type provider_group

abbrev pub provider_config_kind_api_version : String
provider_config_kind_api_version = provider_api_version provider_config_type

abbrev pub provider_config_group_version_kind : GroupVersionKind
provider_config_group_version_kind = provider_kind provider_config_type

abbrev pub provider_config_usage_type : String
provider_config_usage_type = "ProviderConfigUsage"

abbrev pub provider_config_usage_group_kind : String
provider_config_usage_group_kind = group_kind provider_config_usage_type provider_group

abbrev pub provider_config_usage_kind_api_version : String
provider_config_usage_kind_api_version = provider_api_version provider_config_usage_type

abbrev pub provider_config_usage_group_version_kind : GroupVersionKind
provider_config_usage_group_version_kind = provider_kind provider_config_usage_type

abbrev pub provider_config_usage_list_type : String
provider_config_usage_list_type = "ProviderConfigUsageList"

abbrev pub provider_config_usage_list_group_kind : String
provider_config_usage_list_group_kind = group_kind provider_config_usage_list_type provider_group

abbrev pub provider_config_usage_list_kind_api_version : String
provider_config_usage_list_kind_api_version = provider_api_version provider_config_usage_list_type

abbrev pub provider_config_usage_list_group_version_kind : GroupVersionKind
provider_config_usage_list_group_version_kind = provider_kind provider_config_usage_list_type

-- The types that `addKnownTypes` registers, each with its list type.
abbrev pub known_types : List String
known_types =
    user_type ∷ "UserList" ∷ bucket_type ∷ "BucketList" ∷ service_account_type
    ∷ "ServiceAccountList" ∷ notification_configuration_type ∷ "NotificationConfigurationList"
    ∷ policy_type ∷ "PolicyList" ∷ []

abbrev pub provider_known_types : List String
provider_known_types =
    provider_config_usage_type ∷ provider_config_usage_list_type ∷ provider_config_type
    ∷ "ProviderConfigList" ∷ []
