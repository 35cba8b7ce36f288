-- ===== src/Minio/MutualTls.antt =====
-- Where the data of a TLS configuration come from (operator/minioutil/client.go).
use provider_minio.Base.GoMap.{GoMap, lookup}
use provider_minio.Runtime.{Result, ok, Result-cases}
use provider_minio.Base.{
  ◌≢◌, Bool-cases, subst, is_empty, Option-cases, String, ◌≡◌, ◌⊎◌, inl, inr, Option, none, some,
  List, [], ◌∷◌, arith, eq_iff,
}
use provider_minio.Runtime.Try.{bind-ok, wrapping-ok}
use provider_minio.Apis.ProviderConfig.{KeySelector, TlsConfig}
use provider_minio.Client.Kube.{Kube, Crypto, TlsClientConfig}
use provider_minio.Minio.Tls.{
  read_key, get_tls_data, from_secret, from_config_map, client_certificates, root_pool, build,
}

module _ {Pool Cert : Type 0} (crypto : Crypto Pool Cert) where
  -- The certificate is a pair with its key, or both are missing.
  abbrev pub IsPair : String → String → List Cert → Type 0
  IsPair cert_data key_data certs =
      ((cert_data ≡ "") × (key_data ≡ "") × (certs ≡ []))
      ⊎ ((cert_data ≢ "")
          × (key_data ≢ "")
          × ((cert : Cert) × (crypto.key_pair cert_data key_data ≡ ok cert) × (certs ≡ cert ∷ [])))

  client_certificates-IsPair :
      (cert_data key_data : String) {certs : List Cert}
      → client_certificates crypto cert_data key_data ≡ ok certs
      → IsPair cert_data key_data certs
  unfolding client_certificates
  client_certificates-IsPair cert_data key_data h =
      let c = eq_iff cert_data "" in
      let k = eq_iff key_data "" in
      elim (Bool-cases (is_empty cert_data)) [
        | inl no_cert ↦ inl (ground (arith, c), ground (arith, k), ground arith)
        | inr cert ↦ inr (
          (λ e. absurd (ground (arith, c))),
          (λ e. absurd (ground (arith, k))),
          elim (Result-cases (crypto.key_pair cert_data key_data)) [
            | inl (made, e) ↦ (made, e, ground arith)
            | inr (inl (f, e)) ↦ absurd (ground arith)
            | inr (inr e) ↦ absurd (ground arith)
          ],
        )
      ]

  -- The pool of a text that is not empty and parses, or none of the empty text.
  abbrev pub IsPool : String → Option Pool → Type 0
  IsPool ca_data pool =
      ((ca_data ≡ "") × (pool ≡ none))
      ⊎ ((ca_data ≢ "")
          × ((found : Pool) × (crypto.append_certs ca_data ≡ some found) × (pool ≡ some found)))

  root_pool-IsPool :
      (ca_data : String) {pool : Option Pool}
      → root_pool crypto ca_data ≡ ok pool
      → IsPool ca_data pool
  unfolding root_pool
  root_pool-IsPool ca_data h =
      let c = eq_iff ca_data "" in
      elim (Bool-cases (is_empty ca_data)) [
        | inl no_data ↦ inl (ground (arith, c), ground arith)
        | inr given ↦ inr (
          (λ e. absurd (ground (arith, c))),
          elim (Option-cases (crypto.append_certs ca_data)) [
            | inl e ↦ absurd (ground arith)
            | inr (found, e) ↦ (found, e, ground arith)
          ],
        )
      ]

module _ (S : Type 0) where
  -- The key of an object that can be read, with the text that it has there.
  abbrev pub IsKeyOf :
      (S → String → String → Result (GoMap String)) → S → String → KeySelector → String → Type 0
  IsKeyOf read s namespace selector text =
      (m : GoMap String) × (read s namespace selector.name ≡ ok m)
      × (lookup selector.key m ≡ some text)

module _ {S : Type 0} (kube : Kube S) where
  -- The text of the first source that there is: data in the configuration that are not empty, the key
  -- of a secret, the key of a config map, and the empty text where there is none.
  pub data IsFirst (namespace inline_data : String) (secret_ref config_map_ref : Option KeySelector)
      (s : S) (text : String) : Type 0 where
    of_inline :
        inline_data ≢ ""
        → text ≡ inline_data
        → IsFirst namespace inline_data secret_ref config_map_ref s text
    of_secret :
        {selector : KeySelector}
        → inline_data ≡ ""
        → secret_ref ≡ some selector
        → IsKeyOf S kube.get_secret s namespace selector text
        → IsFirst namespace inline_data secret_ref config_map_ref s text
    of_config_map :
        {selector : KeySelector}
        → inline_data ≡ ""
        → secret_ref ≡ none
        → config_map_ref ≡ some selector
        → IsKeyOf S kube.get_config_map s namespace selector text
        → IsFirst namespace inline_data secret_ref config_map_ref s text
    of_nothing :
        inline_data ≡ ""
        → secret_ref ≡ none
        → config_map_ref ≡ none
        → text ≡ ""
        → IsFirst namespace inline_data secret_ref config_map_ref s text

  read_key-lookup :
      (kind : String) (selector : KeySelector) (m : GoMap String) {text : String}
      → read_key kind selector m ≡ ok text
      → lookup selector.key m ≡ some text
  unfolding read_key
  read_key-lookup kind selector m h = elim (Option-cases (lookup selector.key m)) [
    | inl e ↦ absurd (ground arith)
    | inr (found, e) ↦ ground arith
  ]

  from_secret-IsKeyOf :
      (namespace : String) (selector : KeySelector) (s : S) {text : String}
      → from_secret kube namespace selector s ≡ ok text
      → IsKeyOf S kube.get_secret s namespace selector text
  unfolding from_secret
  from_secret-IsKeyOf namespace selector s h =
      let (m, e, r) = bind-ok _ _ h in (m, wrapping-ok _ _ e, read_key-lookup "secret" selector m r)

  from_config_map-IsKeyOf :
      (namespace : String) (selector : KeySelector) (s : S) {text : String}
      → from_config_map kube namespace selector s ≡ ok text
      → IsKeyOf S kube.get_config_map s namespace selector text
  unfolding from_config_map
  from_config_map-IsKeyOf namespace selector s h =
      let (m, e, r) = bind-ok _ _ h in
      (m, wrapping-ok _ _ e, read_key-lookup "configmap" selector m r)

  get_tls_data-IsFirst :
      (namespace inline_data : String) (secret_ref config_map_ref : Option KeySelector) (s : S)
      {text : String}
      → get_tls_data kube namespace inline_data secret_ref config_map_ref s ≡ ok text
      → IsFirst namespace inline_data secret_ref config_map_ref s text
  unfolding get_tls_data
  get_tls_data-IsFirst namespace inline_data secret_ref config_map_ref s h =
      let c = eq_iff inline_data "" in
      elim (Bool-cases (is_empty inline_data)) [
        | inr given ↦ of_inline (λ e. absurd (ground (arith, c))) (ground arith)
        | inl unset ↦ elim (Option-cases secret_ref) [
          | inr (selector, e) ↦
              of_secret (ground (arith, c)) e
                (from_secret-IsKeyOf namespace selector s (ground arith))
          | inl n ↦ elim (Option-cases config_map_ref) [
            | inr (selector, e) ↦
                of_config_map (ground (arith, c)) n e
                  (from_config_map-IsKeyOf namespace selector s (ground arith))
            | inl m ↦ of_nothing (ground (arith, c)) n m (ground arith)
          ]
        ]
      ]

  module _ {Pool Cert : Type 0} (crypto : Crypto Pool Cert) where
    -- What a TLS configuration is made of: the three texts, each from the first of its sources.
    pub record IsBuilt (tls : TlsConfig) (namespace : String) (s : S)
        (config : TlsClientConfig Pool Cert) : Type 0 where
      pub ca_data : String
      pub cert_data : String
      pub key_data : String
      pub ca_source :
          IsFirst namespace tls.ca_data tls.ca_secret_ref tls.ca_config_map_ref s ca_data
      pub cert_source :
          IsFirst namespace tls.client_cert_data tls.client_cert_secret_ref none s cert_data
      pub key_source :
          IsFirst namespace tls.client_key_data tls.client_key_secret_ref none s key_data
      pub roots : IsPool crypto ca_data config.root_cas
      pub pair : IsPair crypto cert_data key_data config.certificates
      pub verification : config.insecure_skip_verify ≡ tls.insecure_skip_verify

    -- Where a TLS configuration is built, each of its three texts is that of the first source that there
    -- is, and a key that is asked for was there; the CA certificates are those of a text that is not
    -- empty and parses, and none where it is empty; a certificate is there only as a pair with its
    -- key, both of texts that are not empty, and none only where both are; and the verification is
    -- skipped exactly where the specification says so.
    pub build-IsBuilt :
        (tls : TlsConfig) (namespace : String) (s : S) {config : TlsClientConfig Pool Cert}
        → build kube crypto tls namespace s ≡ ok config
        → IsBuilt tls namespace s config
    unfolding build
    build-IsBuilt tls namespace s {config} h =
        let (ca, ca_read, h) = bind-ok _ _ h in
        let (pool, pooled, h) = bind-ok _ _ h in
        let (cert, cert_read, h) = bind-ok _ _ h in
        let (key, key_read, h) = bind-ok _ _ h in
        let (certs, paired, same) = bind-ok _ _ h in
        record {
          ca_data = ca;
          cert_data = cert;
          key_data = key;
          ca_source = get_tls_data-IsFirst namespace _ _ _ s (wrapping-ok _ _ ca_read);
          cert_source = get_tls_data-IsFirst namespace _ _ _ s (wrapping-ok _ _ cert_read);
          key_source = get_tls_data-IsFirst namespace _ _ _ s (wrapping-ok _ _ key_read);
          roots = subst (IsPool crypto ca) (ground arith) (root_pool-IsPool crypto ca pooled);
          pair =
              subst (IsPair crypto cert key) (ground arith)
                (client_certificates-IsPair crypto cert key paired);
          verification = ground arith;
        }
