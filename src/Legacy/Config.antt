-- ===== src/Legacy/Config.antt =====
-- internal/clients/minio.go
use provider_minio.Runtime.{wrapping, errorf, Result, ok, err, panic}
use provider_minio.Base.{
  len, if◌then◌else◌, ltb, ◌==◌, is_empty, ◌<◌, String, ◌<>◌, ◌≡◌, ◌≢◌, ◌↔◌, Bool, true, false, not,
  none, some, arith,
}
use Prim.Native.String.{slice}
use provider_minio.Bucket.Delete.{quoted}
use provider_minio.Runtime.Try.{◌>>=◌}
use provider_minio.Apis.ProviderConfig.{ProviderConfig, SecretReference}
use provider_minio.Client.Kube.{Kube, Endpoint, Dial}
use provider_minio.Minio.Endpoints.{data_of}

pub record Config : Type 0 where
  pub endpoint : String
  pub access_key : String
  pub secret_key : String
  pub use_ssl : Bool

-- `MinioURL != "" && MinioURL[:8] == "https://"`: a slice past the end panics.
unfoldable pub is_https : String → Result Bool
is_https url =
    if is_empty url
    then ok false
    else if ltb (len url) 8
    then panic
    else ok (slice url 0 8 == "https://")

module _ {S : Type 0} (kube : Kube S) where
  -- `getConfigFromAPISecretRef`, on a reference that is not nil.
  unfoldable pub get_config_from_api_secret_ref :
      SecretReference → String → Bool → S → Result Config
  unfolding data_of
  get_config_from_api_secret_ref ref endpoint use_ssl s = do
    secret ← wrapping "cannot get connection secret" (kube.get_secret s ref.namespace ref.name)
    ok (record {
      endpoint = endpoint;
      access_key = data_of "accessKey" secret;
      secret_key = data_of "secretKey" secret;
      use_ssl = use_ssl;
    })

  module _ (unmarshal : String → Result Config) where
    -- `getConfigFromSecret`: the key holds a configuration as JSON, whose endpoint and TLS switch are
    -- replaced.
    unfoldable pub get_config_from_secret :
        SecretReference → String → String → Bool → S → Result Config
    unfolding data_of
    get_config_from_secret ref key endpoint use_ssl s = do
      secret ← wrapping "cannot get connection secret" (kube.get_secret s ref.namespace ref.name)
      config ← wrapping "cannot unmarshal credentials" (unmarshal (data_of key secret))
      ok (record config { endpoint = endpoint; use_ssl = use_ssl })

    -- The reference that is used: the API secret if it has a name, or the selector of a key.
    unfoldable pub read_credentials : ProviderConfig → Bool → S → Result Config
    unfolding get_config_from_api_secret_ref get_config_from_secret
    read_credentials pc use_ssl s =
        let credentials = pc.spec.credentials in
        if not (is_empty credentials.api_secret_ref.name)
        then get_config_from_api_secret_ref credentials.api_secret_ref pc.spec.minio_url use_ssl s
        else elim credentials.secret_ref [
          | some selector ↦
              get_config_from_secret selector.reference selector.key pc.spec.minio_url use_ssl s
          | none ↦ err (errorf "no secret reference provided")
        ]

    -- `GetConfig`
    unfoldable pub get_config : ProviderConfig → S → Result Config
    unfolding is_https read_credentials
    get_config pc s = do
      use_ssl ← is_https pc.spec.minio_url
      if pc.spec.credentials.source == "Secret"
          then read_credentials pc use_ssl s
          else err (
              errorf (
                "credentials source "
                <> (quoted pc.spec.credentials.source <> " is not currently supported")))

    -- Where the reading of the credentials does not panic, GetConfig panics exactly on an address that
    -- is not empty and is shorter than eight bytes, whatever the credentials are.
    pub get_config-panic_iff :
        (pc : ProviderConfig) (s : S)
        → ((read_credentials pc true s ≢ panic) × (read_credentials pc false s ≢ panic))
        → (get_config pc s ≡ panic)
          ↔ ((is_empty pc.spec.minio_url ≡ false) × (len pc.spec.minio_url < 8))
    unfolding get_config
    get_config-panic_iff pc s (no_panic, none_either) = ground arith

module _ {S Pool Cert : Type 0} (dial : Dial S Pool Cert) where
  unfoldable pub endpoint_of : Config → Endpoint Pool Cert
  endpoint_of cfg = record {
    host = cfg.endpoint;
    access_key = cfg.access_key;
    secret_key = cfg.secret_key;
    secure = cfg.use_ssl;
    transport = none;
  }

  -- `NewMinIOClient`
  unfoldable pub new_min_io_client : Config → Result (Endpoint Pool Cert)
  unfolding endpoint_of
  new_min_io_client cfg = do _ ← dial.new_admin (endpoint_of cfg); ok (endpoint_of cfg)
