-- ===== src/ServiceAccount/Connect.antt =====
-- operator/serviceaccount/connector.go
use provider_minio.Runtime.{M, pure, ◌>>=◌, query}
use provider_minio.Base.{Bool}
use provider_minio.Apis.Managed.{Managed, service_account_kind}
use provider_minio.Client.Kube.{Kube, Url, Crypto, Endpoint, Dial}
use provider_minio.Minio.Connect.{open_config}
use provider_minio.Minio.Endpoints.{new_minio_admin, is_tls_enabled}
use provider_minio.ServiceAccount.Identity.{err_not_service_account}

-- `serviceAccountClient` without its parts for Kubernetes.
pub record ServiceAccountClient (Pool Cert : Type 0) : Type 0 where
  pub ma : Endpoint Pool Cert
  pub url : Url
  pub tls_settings : Bool

module _ {S Pool Cert : Type 0} (kube : Kube S) (crypto : Crypto Pool Cert)
    (dial : Dial S Pool Cert) where
  -- `Connect`
  unfoldable pub connect : M S Managed (ServiceAccountClient Pool Cert)
  unfolding open_config new_minio_admin is_tls_enabled
  connect = do
    config ← open_config kube service_account_kind err_not_service_account (λ a. a.spec.managed)
    ma ← query (new_minio_admin kube crypto dial config)
    url ← query (λ _. crypto.parse_url config.spec.minio_url)
    pure (record { ma = ma; url = url; tls_settings = is_tls_enabled url })
