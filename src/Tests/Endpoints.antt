-- ===== src/Tests/Endpoints.antt =====
-- Clients made from one provider configuration with a secret of certificates, and an address that is
-- too short.
use provider_minio.Minio.Tls.{build}
use provider_minio.Base.GoMap.{GoMap}
use provider_minio.Runtime.{Error, errorf, ok, err, panic}
use provider_minio.Base.{
  ◌≢◌, len, is_empty, ◌<◌, String, ◌<>◌, ◌≡◌, refl, ◌↔◌, Bool, true, false, none, some, [], ◌∷◌,
  arith,
}
use provider_minio.Apis.ProviderConfig.{TlsConfig, ProviderConfig}
use provider_minio.Client.Kube.{Kube, Crypto, TlsClientConfig, Endpoint, Dial}
use provider_minio.Minio.MutualTls.{IsBuilt, build-IsBuilt}
use provider_minio.Legacy.Config.{read_credentials, get_config, get_config-panic_iff}

abbrev refuse : Error
refuse = errorf "refused"

abbrev tls_settings : TlsConfig
tls_settings = record {
  ca_data = "";
  ca_secret_ref = some (record { name = "authority"; key = "ca.crt" });
  ca_config_map_ref = none;
  client_cert_data = "cert";
  client_cert_secret_ref = none;
  client_key_data = "";
  client_key_secret_ref = some (record { name = "authority"; key = "tls.key" });
  insecure_skip_verify = false;
}

abbrev config_at : String → ProviderConfig
config_at address = record {
  name = "minio";
  spec = record {
    credentials = record {
      source = "Secret";
      api_secret_ref = record { name = "root"; namespace = "system" };
      secret_ref = none;
    };
    minio_url = address;
    tls = some tls_settings;
  };
}

abbrev stored : GoMap String
stored =
    ("ca.crt", "authority")
    ∷ ("tls.key", "key")
    ∷ ("AWS_ACCESS_KEY_ID", "root")
    ∷ ("AWS_SECRET_ACCESS_KEY", "secret")
    ∷ []

abbrev kube : Kube (GoMap String)
kube = record {
  get_secret = λ s namespace name. ok s;
  get_config_map = λ s namespace name. err refuse;
  get_provider_config = λ s name. ok (config_at "https://minio.example");
  track = λ s mg. (ok tt, s);
}

-- A pool and a certificate are texts.
abbrev crypto : Crypto String String
crypto = record {
  parse_url = λ text. ok (record { scheme = "https"; host = "minio.example" });
  append_certs = λ text. some text;
  key_pair = λ cert key. ok (cert <> "+" <> key);
}

abbrev dial : Dial (GoMap String) String String
dial = record {
  new_minio = λ e. ok tt;
  new_admin = λ e. ok tt;
  list_buckets = λ s e. ok tt;
  list_canned_policies = λ s e. ok [];
}

abbrev expected_transport : TlsClientConfig String String
expected_transport = record {
  insecure_skip_verify = false;
  root_cas = some "authority";
  certificates = "cert+key" ∷ [];
}

abbrev expected_endpoint : Endpoint String String
expected_endpoint = record {
  host = "minio.example";
  access_key = "root";
  secret_key = "secret";
  secure = true;
  transport = some expected_transport;
}

build-IsBuilt_example : IsBuilt kube crypto tls_settings "system" stored expected_transport
unfolding build
build-IsBuilt_example =
    build-IsBuilt kube crypto tls_settings "system" stored {config = expected_transport} refl

credentials_read :
    (use_ssl : Bool)
    → read_credentials kube (λ text. err refuse) (config_at "minio") use_ssl stored ≢ panic
unfolding read_credentials
credentials_read use_ssl h = ground arith

get_config-panic_iff_example :
    (get_config kube (λ text. err refuse) (config_at "minio") stored ≡ panic)
    ↔ ((is_empty "minio" ≡ false) × (len "minio" < 8))
get_config-panic_iff_example =
    get_config-panic_iff kube (λ text. err refuse) (config_at "minio") stored
      (credentials_read true, credentials_read false)
