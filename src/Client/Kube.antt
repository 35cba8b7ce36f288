-- ===== src/Client/Kube.antt =====
-- The client of the Kubernetes API with the tracker of provider configurations, `url.Parse`, the
-- packages `crypto/tls` and `crypto/x509`, and the constructors of the MinIO clients.
use provider_minio.Base.{String, Bool, Option, List}
use provider_minio.Base.GoMap.{GoMap}
use provider_minio.Runtime.{Result}
use provider_minio.Apis.ProviderConfig.{ProviderConfig}
use provider_minio.Apis.Managed.{Managed}

-- The texts are the namespace and the name; a provider configuration is cluster-wide.
pub record Kube (S : Type 0) : Type 0 where
  pub get_secret : S → String → String → Result (GoMap String)
  pub get_config_map : S → String → String → Result (GoMap String)
  pub get_provider_config : S → String → Result ProviderConfig
  pub track : S → Managed → Result (Unit {0}) × S

-- `url.URL`, as far as it is read.
pub record Url : Type 0 where
  pub scheme : String
  pub host : String

-- `append_certs` is `AppendCertsFromPEM` on an empty pool: the pool, or the answer false as none.
pub record Crypto (Pool Cert : Type 0) : Type 0 where
  pub parse_url : String → Result Url
  pub append_certs : String → Option Pool
  pub key_pair : String → String → Result Cert

-- `tls.Config`, as far as it is written.
pub record TlsClientConfig (Pool Cert : Type 0) : Type 0 where
  pub insecure_skip_verify : Bool
  pub root_cas : Option Pool
  pub certificates : List Cert

-- What a MinIO client is made from; `transport` is the configuration of its custom transport.
pub record Endpoint (Pool Cert : Type 0) : Type 0 where
  pub host : String
  pub access_key : String
  pub secret_key : String
  pub secure : Bool
  pub transport : Option (TlsClientConfig Pool Cert)

-- `minio.New` and `madmin.NewWithOptions`: they reject bad hosts and credentials. The others
-- are calls on such clients.
pub record Dial (S Pool Cert : Type 0) : Type 0 where
  pub new_minio : Endpoint Pool Cert → Result (Unit {0})
  pub new_admin : Endpoint Pool Cert → Result (Unit {0})
  pub list_buckets : S → Endpoint Pool Cert → Result (Unit {0})
  pub list_canned_policies : S → Endpoint Pool Cert → Result (GoMap String)
