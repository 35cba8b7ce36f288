-- ===== src/Notification/Connect.antt =====
-- operator/notificationconfiguration/connector.go
use provider_minio.Runtime.{M, pure, ◌>>=◌, query}
use provider_minio.Apis.Managed.{Managed, notification_kind}
use provider_minio.Apis.ProviderConfig.{ProviderConfig}
use provider_minio.Client.Kube.{Kube, Crypto, Endpoint, Dial}
use provider_minio.Minio.Connect.{open_config}
use provider_minio.Minio.Endpoints.{new_minio_admin, new_minio_client}
use provider_minio.Notification.Lambda.{err_not_notification_configuration}

-- `notificationClient` without its parts for Kubernetes.
pub record NotificationClient (Pool Cert : Type 0) : Type 0 where
  pub ma : Endpoint Pool Cert
  pub mc : Endpoint Pool Cert
  pub cfg : ProviderConfig

module _ {S Pool Cert : Type 0} (kube : Kube S) (crypto : Crypto Pool Cert)
    (dial : Dial S Pool Cert) where
  -- `Connect`
  unfoldable pub connect : M S Managed (NotificationClient Pool Cert)
  unfolding open_config new_minio_admin new_minio_client
  connect = do
    config ←
        open_config kube notification_kind err_not_notification_configuration (λ n. n.spec.managed)
    ma ← query (new_minio_admin kube crypto dial config)
    mc ← query (new_minio_client kube crypto dial config)
    pure (record { ma = ma; mc = mc; cfg = config })
