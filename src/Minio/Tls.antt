-- ===== src/Minio/Tls.antt =====
-- `buildTLSConfig` and `getTLSData` of operator/minioutil/client.go.
use provider_minio.Base.GoMap.{GoMap, lookup}
use provider_minio.Runtime.{wrapping, errorf, Result, ok, err}
use provider_minio.Base.{
  if◌then◌else◌, is_empty, String, ◌<>◌, false, not, ◌&&◌, ◌||◌, Option, none, some, List, [], ◌∷◌,
}
use provider_minio.Runtime.Try.{◌>>=◌}
use provider_minio.Apis.ProviderConfig.{KeySelector, TlsConfig}
use provider_minio.Client.Kube.{Kube, Crypto, TlsClientConfig}

-- `data, ok := m[key]`, and an error where there is none.
unfoldable pub read_key : String → KeySelector → GoMap String → Result String
unfolding lookup
read_key kind selector m = elim (lookup selector.key m) [
  | none ↦
      err (
        errorf ("key " <> (selector.key <> (" not found in " <> (kind <> (" " <> selector.name))))))
  | some text ↦ ok text
]

module _ {Pool Cert : Type 0} (crypto : Crypto Pool Cert) where
  -- The pool of the CA certificates, if there are any.
  unfoldable pub root_pool : String → Result (Option Pool)
  root_pool ca_data = if is_empty ca_data then ok none else elim (crypto.append_certs ca_data) [
    | none ↦ err (errorf "failed to parse CA certificate data")
    | some pool ↦ ok (some pool)
  ]

  -- Both of certificate and key, or neither of them.
  unfoldable pub client_certificates : String → String → Result (List Cert)
  client_certificates cert_data key_data =
      if not (is_empty cert_data) && not (is_empty key_data)
      then (do
        cert ←
            wrapping "failed to load client certificate and key"
              (crypto.key_pair cert_data key_data)
        ok (cert ∷ []))
      else if not (is_empty cert_data) || not (is_empty key_data)
      then err (errorf "both client certificate and key must be provided for mutual TLS")
      else ok []

module _ {S : Type 0} (kube : Kube S) where
  unfoldable pub from_secret : String → KeySelector → S → Result String
  unfolding read_key
  from_secret namespace selector s = do
    secret ←
        wrapping ("failed to get secret " <> selector.name)
          (kube.get_secret s namespace selector.name)
    read_key "secret" selector secret

  unfoldable pub from_config_map : String → KeySelector → S → Result String
  unfolding read_key
  from_config_map namespace selector s = do
    config_map ←
        wrapping ("failed to get configmap " <> selector.name)
          (kube.get_config_map s namespace selector.name)
    read_key "configmap" selector config_map

  -- `getTLSData`: the text itself, a key of a secret, a key of a config map, or nothing.
  unfoldable pub get_tls_data :
      String → String → Option KeySelector → Option KeySelector → S → Result String
  unfolding from_secret from_config_map
  get_tls_data namespace inline_data secret_ref config_map_ref s =
      if not (is_empty inline_data) then ok inline_data else elim secret_ref [
        | some selector ↦ from_secret namespace selector s
        | none ↦ elim config_map_ref [
          | some selector ↦ from_config_map namespace selector s
          | none ↦ ok ""
        ]
      ]

  module _ {Pool Cert : Type 0} (crypto : Crypto Pool Cert) where
    -- `buildTLSConfig`, on a configuration that is not nil.
    unfoldable pub build : TlsConfig → String → S → Result (TlsClientConfig Pool Cert)
    unfolding get_tls_data root_pool client_certificates
    build tls namespace s = do
      ca_data ←
          wrapping "failed to get CA certificate data"
            (get_tls_data namespace tls.ca_data tls.ca_secret_ref tls.ca_config_map_ref s)
      pool ← root_pool crypto ca_data
      cert_data ←
          wrapping "failed to get client certificate data"
            (get_tls_data namespace tls.client_cert_data tls.client_cert_secret_ref none s)
      key_data ←
          wrapping "failed to get client key data"
            (get_tls_data namespace tls.client_key_data tls.client_key_secret_ref none s)
      certs ← client_certificates crypto cert_data key_data
      ok (record {
        insecure_skip_verify = tls.insecure_skip_verify;
        root_cas = pool;
        certificates = certs;
      })

    -- `buildTLSConfig`
    unfoldable pub build_tls_config :
        Option TlsConfig → String → S → Result (TlsClientConfig Pool Cert)
    unfolding build
    build_tls_config none namespace s =
        ok (record { insecure_skip_verify = false; root_cas = none; certificates = [] })
    build_tls_config (some tls) namespace s = build tls namespace s
