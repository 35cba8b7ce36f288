-- ===== src/Reconcile/Family.antt =====
-- The five controllers of operator/operator.go and their clients.
use provider_minio.Runtime.{Error}
use provider_minio.Base.{is_some, Bool}
use provider_minio.Apis.Managed.{
  Managed, bucket_kind, policy_kind, user_kind, service_account_kind, notification_kind,
}
use provider_minio.Client.S3.{S3, Notifications}
use provider_minio.Client.Admin.{Admin, Generate}
use provider_minio.Client.Iam.{Iam}
use provider_minio.Client.Kube.{Kube, Url, Dial}
use provider_minio.Reconcile.Client.{
  ExternalClient, bucket_client, policy_client, user_client, service_account_client,
  notification_client,
}
use provider_minio.Bucket.Lock.{err_not_bucket}
use provider_minio.Policy.Render.{err_not_policy}
use provider_minio.User.Policies.{err_not_user}
use provider_minio.ServiceAccount.Identity.{err_not_service_account}
use provider_minio.Notification.Lambda.{err_not_notification_configuration}

pub data Controller : Type 0 where
  of_buckets : Controller
  of_policies : Controller
  of_users : Controller
  of_service_accounts : Controller
  of_notifications : Controller

-- The resource is of the type that the controller is for.
unfoldable pub is_own : Controller → Managed → Bool
is_own of_buckets mg = is_some (bucket_kind.cast mg)
is_own of_policies mg = is_some (policy_kind.cast mg)
is_own of_users mg = is_some (user_kind.cast mg)
is_own of_service_accounts mg = is_some (service_account_kind.cast mg)
is_own of_notifications mg = is_some (notification_kind.cast mg)

-- The error of the controller where it is not.
unfoldable pub wrong_type : Controller → Error
wrong_type of_buckets = err_not_bucket
wrong_type of_policies = err_not_policy
wrong_type of_users = err_not_user
wrong_type of_service_accounts = err_not_service_account
wrong_type of_notifications = err_not_notification_configuration

module _ {S : Type 0} (s3 : S3 S) (admin : Admin S) (kube : Kube S) (generate : Generate S)
    {P Rest Pool Cert : Type 0} (iam : Iam P) (mc : Notifications S Rest) (dial : Dial S Pool Cert)
    (url : Url) (tls_settings : Bool) where
  unfoldable pub client_of : Controller → ExternalClient S
  unfolding bucket_client policy_client user_client service_account_client notification_client
  client_of of_buckets = bucket_client s3
  client_of of_policies = policy_client admin iam
  client_of of_users = user_client admin kube dial url tls_settings generate
  client_of of_service_accounts = service_account_client admin generate
  client_of of_notifications = notification_client mc
