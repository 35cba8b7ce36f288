-- ===== src/Bucket/Connect.antt =====
-- operator/bucket/connector.go
use provider_minio.Runtime.{M, ◌>>=◌, query}
use provider_minio.Apis.Managed.{Managed, bucket_kind}
use provider_minio.Client.Kube.{Kube, Crypto, Endpoint, Dial}
use provider_minio.Minio.Connect.{open_config}
use provider_minio.Minio.Endpoints.{new_minio_client}
use provider_minio.Bucket.Lock.{err_not_bucket}

module _ {S Pool Cert : Type 0} (kube : Kube S) (crypto : Crypto Pool Cert)
    (dial : Dial S Pool Cert) where
  -- `Connect`
  unfoldable pub connect : M S Managed (Endpoint Pool Cert)
  unfolding open_config new_minio_client
  connect = do
    config ← open_config kube bucket_kind err_not_bucket (λ r. r.spec.managed)
    query (new_minio_client kube crypto dial config)
