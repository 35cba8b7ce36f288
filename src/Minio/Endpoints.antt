-- ===== src/Minio/Endpoints.antt =====
-- `NewMinioClient` and `IsTLSEnabled` of operator/minioutil/client.go, and `NewMinioAdmin` of
-- operator/minioutil/admin.go. A client stands for what it is made from.
use provider_minio.Base.GoMap.{GoMap, lookup}
use provider_minio.Runtime.{wrapping, Result, ok}
use provider_minio.Base.{equal_fold, String, ◌≡◌, Bool, not, none, some, arith}
use provider_minio.Runtime.Try.{◌>>=◌}
use provider_minio.Apis.ProviderConfig.{ProviderConfig}
use provider_minio.Client.Kube.{Kube, Url, Crypto, Endpoint, Dial}
use provider_minio.Minio.Tls.{build_tls_config}

abbrev pub minio_id_key : String
minio_id_key = "AWS_ACCESS_KEY_ID"

abbrev pub minio_secret_key : String
minio_secret_key = "AWS_SECRET_ACCESS_KEY"

-- `string(secret.Data[key])`, where a missing key reads as the empty text.
unfoldable pub data_of : String → GoMap String → String
unfolding lookup
data_of key m = elim (lookup key m) [ none ↦ "" | some text ↦ text ]

-- `IsTLSEnabled`
unfoldable pub is_tls_enabled : Url → Bool
unfolding equal_fold
is_tls_enabled url = not (equal_fold url.scheme "http")

module _ {S Pool Cert : Type 0} (kube : Kube S) (crypto : Crypto Pool Cert)
    (dial : Dial S Pool Cert) where
  -- The secret that holds the credentials of the provider.
  unfoldable pub api_secret : ProviderConfig → S → Result (GoMap String)
  api_secret config s =
      let ref = config.spec.credentials.api_secret_ref in kube.get_secret s ref.namespace ref.name

  -- The client without a custom transport.
  unfoldable pub plain : Url → GoMap String → Endpoint Pool Cert
  unfolding data_of is_tls_enabled
  plain url secret = record {
    host = url.host;
    access_key = data_of minio_id_key secret;
    secret_key = data_of minio_secret_key secret;
    secure = is_tls_enabled url;
    transport = none;
  }

  -- The custom transport, where the configuration has a TLS section.
  unfoldable pub with_transport :
      ProviderConfig → Endpoint Pool Cert → S → Result (Endpoint Pool Cert)
  unfolding build_tls_config
  with_transport config endpoint s = elim config.spec.tls [
    | none ↦ ok endpoint
    | some tls ↦ do
      built ← wrapping "failed to build TLS configuration" (
          build_tls_config kube crypto (some tls) config.spec.credentials.api_secret_ref.namespace
            s)
      ok (record endpoint { transport = some built })
  ]

  -- `NewMinioClient`
  unfoldable pub new_minio_client : ProviderConfig → S → Result (Endpoint Pool Cert)
  unfolding api_secret plain with_transport
  new_minio_client config s = do
    secret ← api_secret config s
    url ← crypto.parse_url config.spec.minio_url
    endpoint ← with_transport config (plain url secret) s
    _ ← dial.new_minio endpoint
    ok endpoint

  -- `NewMinioAdmin`: the client is made first, and is given the transport then.
  unfoldable pub new_minio_admin : ProviderConfig → S → Result (Endpoint Pool Cert)
  unfolding api_secret plain with_transport
  new_minio_admin config s = do
    secret ← api_secret config s
    url ← crypto.parse_url config.spec.minio_url
    _ ← dial.new_admin (plain url secret)
    with_transport config (plain url secret) s

  -- Whatever the clients are made for, the two constructors agree: where both succeed they give the
  -- same host, credentials, TLS switch and transport.
  new_minio_client-new_minio_admin :
      (config : ProviderConfig) (s : S) {client admin : Endpoint Pool Cert}
      → new_minio_client config s ≡ ok client
      → new_minio_admin config s ≡ ok admin
      → client ≡ admin
  unfolding new_minio_client new_minio_admin
  new_minio_client-new_minio_admin config s c a = ground arith
