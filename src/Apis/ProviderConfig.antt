-- ===== src/Apis/ProviderConfig.antt =====
-- apis/provider/v1/providerconfig_types.go and apis/common/common.go. A selector of a key in a
-- Secret or ConfigMap is the object's name and the key.
use provider_minio.Base.{String, Bool, Option}

pub record KeySelector : Type 0 where
  pub name : String
  pub key : String

pub record TlsConfig : Type 0 where
  pub ca_data : String
  pub ca_secret_ref : Option KeySelector
  pub ca_config_map_ref : Option KeySelector
  pub client_cert_data : String
  pub client_cert_secret_ref : Option KeySelector
  pub client_key_data : String
  pub client_key_secret_ref : Option KeySelector
  pub insecure_skip_verify : Bool

pub record SecretReference : Type 0 where
  pub name : String
  pub namespace : String

-- `SecretRef` of the embedded `CommonCredentialSelectors` is a reference with a key.
pub record SecretKeySelector : Type 0 where
  pub reference : SecretReference
  pub key : String

pub record ProviderCredentials : Type 0 where
  pub source : String
  pub api_secret_ref : SecretReference
  pub secret_ref : Option SecretKeySelector

pub record ProviderConfigSpec : Type 0 where
  pub credentials : ProviderCredentials
  pub minio_url : String
  pub tls : Option TlsConfig

pub record ProviderConfig : Type 0 where
  pub name : String
  pub spec : ProviderConfigSpec
