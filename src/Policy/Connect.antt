-- ===== src/Policy/Connect.antt =====
-- operator/policy/connector.go
use provider_minio.Runtime.{M, ◌>>=◌, query}
use provider_minio.Apis.Managed.{Managed, policy_kind}
use provider_minio.Client.Kube.{Kube, Crypto, Endpoint, Dial}
use provider_minio.Minio.Connect.{open_config}
use provider_minio.Minio.Endpoints.{new_minio_admin}
use provider_minio.Policy.Render.{err_not_policy}

module _ {S Pool Cert : Type 0} (kube : Kube S) (crypto : Crypto Pool Cert)
    (dial : Dial S Pool Cert) where
  -- `Connect`
  unfoldable pub connect : M S Managed (Endpoint Pool Cert)
  unfolding open_config new_minio_admin
  connect = do
    config ← open_config kube policy_kind err_not_policy (λ r. r.spec.managed)
    query (new_minio_admin kube crypto dial config)
