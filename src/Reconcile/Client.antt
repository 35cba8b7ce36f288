-- ===== src/Reconcile/Client.antt =====
-- The methods of the five clients of operator/, as implementations of `managed.ExternalClient`.
use provider_minio.Runtime.{Observation, Creation, M, pure}
use provider_minio.Base.{Bool}
use provider_minio.Bucket
use provider_minio.Policy
use provider_minio.User
use provider_minio.ServiceAccount
use provider_minio.Notification
use provider_minio.Apis.Managed.{Managed}
use provider_minio.Client.S3.{S3, Notifications}
use provider_minio.Client.Admin.{Admin, Generate}
use provider_minio.Client.Iam.{Iam}
use provider_minio.Client.Kube.{Kube, Url, Dial}

-- `managed.ExternalClient`
pub record ExternalClient (S : Type 0) : Type 0 where
  pub observe : M S Managed Observation
  pub create : M S Managed Creation
  pub update : M S Managed (Unit {0})
  pub delete : M S Managed (Unit {0})
  pub disconnect : M S Managed (Unit {0})

module _ {S : Type 0} where
  unfoldable pub bucket_client : S3 S → ExternalClient S
  unfolding Bucket.Observe.observe_managed Bucket.Create.create_managed Bucket.Update.update_managed
      Bucket.Delete.delete_managed
  bucket_client s3 = record {
    observe = Bucket.Observe.observe_managed s3;
    create = Bucket.Create.create_managed s3;
    update = Bucket.Update.update_managed s3;
    delete = Bucket.Delete.delete_managed s3;
    disconnect = pure tt;
  }

  unfoldable pub policy_client : {P : Type 0} → Admin S → Iam P → ExternalClient S
  unfolding Policy.Observe.observe_managed Policy.Create.create_managed Policy.Update.update_managed
      Policy.Delete.delete_managed
  policy_client admin iam = record {
    observe = Policy.Observe.observe_managed admin iam;
    create = Policy.Create.create_managed admin iam;
    update = Policy.Update.update_managed admin iam;
    delete = Policy.Delete.delete_managed admin;
    disconnect = pure tt;
  }

  unfoldable pub user_client :
      {Pool Cert : Type 0}
      → Admin S
      → Kube S
      → Dial S Pool Cert
      → Url
      → Bool
      → Generate S
      → ExternalClient S
  unfolding User.Observe.observe_managed User.Create.create_managed User.Update.update_managed
      User.Delete.delete_managed
  user_client admin kube dial url tls_settings generate = record {
    observe = User.Observe.observe_managed admin kube dial url tls_settings;
    create = User.Create.create_managed admin generate;
    update = User.Update.update_managed admin kube;
    delete = User.Delete.delete_managed admin;
    disconnect = pure tt;
  }

  unfoldable pub service_account_client : Admin S → Generate S → ExternalClient S
  unfolding ServiceAccount.Observe.observe_managed ServiceAccount.Create.create_managed
      ServiceAccount.Update.update_managed ServiceAccount.Delete.delete_managed
  service_account_client admin generate = record {
    observe = ServiceAccount.Observe.observe_managed admin;
    create = ServiceAccount.Create.create_managed admin generate;
    update = ServiceAccount.Update.update_managed admin;
    delete = ServiceAccount.Delete.delete_managed admin;
    disconnect = pure tt;
  }

  unfoldable pub notification_client : {Rest : Type 0} → Notifications S Rest → ExternalClient S
  unfolding Notification.Observe.observe_managed Notification.Create.create_managed
      Notification.Update.update_managed Notification.Delete.delete_managed
  notification_client mc = record {
    observe = Notification.Observe.observe_managed mc;
    create = Notification.Create.create_managed mc;
    update = Notification.Update.update_managed mc;
    delete = Notification.Delete.delete_managed mc;
    disconnect = pure tt;
  }
