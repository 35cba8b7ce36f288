-- ===== src/Legacy/Consolidated.antt =====
-- internal/clients/consolidated_client_creation.go. Data that are nil are none.
use provider_minio.Base.GoMap.{lookup}
use provider_minio.Runtime.{wrapping, errorf, Result, ok, err}
use provider_minio.Base.{
  if◌then◌else◌, is_empty, String, ◌<>◌, Bool, true, false, Option, none, some, [], ◌∷◌,
}
use provider_minio.Runtime.Try.{◌>>=◌}
use provider_minio.Apis.ProviderConfig.{SecretReference}
use provider_minio.Client.Kube.{Kube, Crypto, TlsClientConfig, Endpoint}
use provider_minio.Minio.Endpoints.{data_of}

pub record ConsolidatedConfig : Type 0 where
  pub endpoint : String
  pub access_key : String
  pub secret_key : String
  pub region : String
  pub use_ssl : Bool
  pub tls_cert_data : Option String
  pub tls_key_data : Option String
  pub ca_cert_data : Option String
  pub insecure_skip_verify : Bool

-- A client with a region.
pub record RegionEndpoint (Pool Cert : Type 0) : Type 0 where
  pub base : Endpoint Pool Cert
  pub region : String

module _ {Pool Cert : Type 0} (crypto : Crypto Pool Cert) where
  unfoldable pub ca_pool : Option String → Result (Option Pool)
  ca_pool none = ok none
  ca_pool (some ca_data) = elim (crypto.append_certs ca_data) [
    | none ↦ err (errorf "failed to parse CA certificate")
    | some pool ↦ ok (some pool)
  ]

  -- The transport, which there is only with both certificate and key; without them the CA
  -- certificates and the switch for verification are not looked at, and a nil pointer goes to
  -- `minio.New` in an interface value that is not nil.
  unfoldable pub transport_of : ConsolidatedConfig → Result (Option (TlsClientConfig Pool Cert))
  unfolding ca_pool
  transport_of config = elim config.tls_cert_data [
    | none ↦ ok none
    | some cert_data ↦ elim config.tls_key_data [
      | none ↦ ok none
      | some key_data ↦ do
        cert ← wrapping "failed to load TLS certificates" (crypto.key_pair cert_data key_data)
        pool ← ca_pool config.ca_cert_data
        ok (
            some (record {
              insecure_skip_verify = config.insecure_skip_verify;
              root_cas = pool;
              certificates = cert ∷ [];
            }))
    ]
  ]

  unfoldable pub client_of :
      ConsolidatedConfig → Option (TlsClientConfig Pool Cert) → RegionEndpoint Pool Cert
  client_of config transport = record {
    base = record {
      host = config.endpoint;
      access_key = config.access_key;
      secret_key = config.secret_key;
      secure = config.use_ssl;
      transport = transport;
    };
    region = config.region;
  }

  -- `NewConsolidatedMinioClient`
  unfoldable pub new_consolidated_minio_client :
      (RegionEndpoint Pool Cert → Result (Unit {0}))
      → ConsolidatedConfig
      → Result (RegionEndpoint Pool Cert)
  unfolding transport_of client_of
  new_consolidated_minio_client new_minio config = do
    transport ← transport_of config
    _ ← new_minio (client_of config transport)
    ok (client_of config transport)

module _ {S : Type 0} (kube : Kube S) where
  -- `GetConfigFromAPISecretRef`; a key prints as its namespace and its name.
  unfoldable pub get_config_from_api_secret_ref : SecretReference → S → Result ConsolidatedConfig
  unfolding data_of lookup
  get_config_from_api_secret_ref ref s = do
    secret ←
        wrapping ("failed to get secret " <> (ref.namespace <> ("/" <> ref.name)))
          (kube.get_secret s ref.namespace ref.name)
    let region = data_of "region" secret
    ok (record {
      endpoint = data_of "endpoint" secret;
      access_key = data_of "accessKey" secret;
      secret_key = data_of "secretKey" secret;
      region = if is_empty region then "us-east-1" else region;
      use_ssl = true;
      tls_cert_data = lookup "clientCert" secret;
      tls_key_data = lookup "clientKey" secret;
      ca_cert_data = lookup "caBundle" secret;
      insecure_skip_verify = false;
    })
