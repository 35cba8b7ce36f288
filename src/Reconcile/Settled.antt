-- ===== src/Reconcile/Settled.antt =====
-- Rounds on a resource that is up to date, for the clients of the five controllers.
use provider_minio.Runtime.{ok, World}
use provider_minio.Base.{is_empty, ◌≡◌, refl, Bool, true, not, some}
use provider_minio.Bucket
use provider_minio.Policy
use provider_minio.User
use provider_minio.ServiceAccount
use provider_minio.Notification
use provider_minio.Apis.User.{get_user_name}
use provider_minio.Apis.Managed.{
  Managed, Kind, bucket_kind, policy_kind, user_kind, service_account_kind, notification_kind,
  bucket, policy, user, service_account, notification, other,
}
use provider_minio.Client.S3.{S3, Notifications}
use provider_minio.Client.Admin.{Admin, Generate}
use provider_minio.Client.Iam.{Iam}
use provider_minio.Client.Kube.{Kube, Url, Dial}
use provider_minio.Bucket.Lock.{err_not_bucket}
use provider_minio.Policy.Render.{err_not_policy}
use provider_minio.User.Policies.{err_not_user}
use provider_minio.ServiceAccount.Identity.{err_not_service_account}
use provider_minio.Notification.Lambda.{err_not_notification_configuration}
use provider_minio.Reconcile.Client.{
  bucket_client, policy_client, user_client, service_account_client, notification_client,
}
use provider_minio.Reconcile.Rounds.{
  settled, Rounds, StaysSettled, quiet-StaysSettled, narrow-IsQuiet,
}
use provider_minio.Reconcile.Family.{
  Controller, of_buckets, of_policies, of_users, of_service_accounts, of_notifications, client_of,
}
use provider_minio.Reconcile.Quiet.{
  bucket-IsQuiet, policy-IsQuiet, user-IsQuiet, service_account-IsQuiet, notification-IsQuiet,
}

-- The object has a name, as every object of the API server has.
abbrev pub is_named : Managed → Bool
is_named (bucket b) = true
is_named (policy p) = true
is_named (user u) = not (is_empty (get_user_name u))
is_named (service_account a) = true
is_named (notification n) = true
is_named other = true

-- The cast of a kind finds only what it wraps.
abbrev IsExact : {R : Type 0} → Kind R → Type 0
IsExact {R} kind = (m : Managed) (r : R) → kind.cast m ≡ some r → kind.wrap r ≡ m

bucket-IsExact : IsExact bucket_kind
bucket-IsExact (bucket b) r h = cc
bucket-IsExact _ r h = cc

policy-IsExact : IsExact policy_kind
policy-IsExact (policy p) r h = cc
policy-IsExact _ r h = cc

user-IsExact : IsExact user_kind
user-IsExact (user u) r h = cc
user-IsExact _ r h = cc

service_account-IsExact : IsExact service_account_kind
service_account-IsExact (service_account a) r h = cc
service_account-IsExact _ r h = cc

notification-IsExact : IsExact notification_kind
notification-IsExact (notification n) r h = cc
notification-IsExact _ r h = cc

pub bucket_client-StaysSettled : {S : Type 0} (s3 : S3 S) → StaysSettled (bucket_client s3) is_named
unfolding bucket_client
bucket_client-StaysSettled s3 = quiet-StaysSettled (bucket_client s3) is_named (
    narrow-IsQuiet bucket_kind err_not_bucket is_named (λ r. refl) bucket-IsExact
      (Bucket.Observe.observe s3) (bucket-IsQuiet s3))

pub policy_client-StaysSettled :
    {S P : Type 0} (admin : Admin S) (iam : Iam P) → StaysSettled (policy_client admin iam) is_named
unfolding policy_client
policy_client-StaysSettled admin iam = quiet-StaysSettled (policy_client admin iam) is_named (
    narrow-IsQuiet policy_kind err_not_policy is_named (λ r. refl) policy-IsExact
      (Policy.Observe.observe admin iam) (policy-IsQuiet admin iam))

module _ {S : Type 0} (s3 : S3 S) (admin : Admin S) (kube : Kube S) (generate : Generate S)
    {P Rest Pool Cert : Type 0} (iam : Iam P) (mc : Notifications S Rest) (dial : Dial S Pool Cert)
    (url : Url) (tls_settings : Bool) where
  each-StaysSettled :
      (k : Controller)
      → StaysSettled (client_of s3 admin kube generate iam mc dial url tls_settings k) is_named
  unfolding client_of bucket_client policy_client user_client service_account_client
      notification_client
  each-StaysSettled of_buckets = bucket_client-StaysSettled s3
  each-StaysSettled of_policies = policy_client-StaysSettled admin iam
  each-StaysSettled of_users =
      quiet-StaysSettled (user_client admin kube dial url tls_settings generate) is_named (
        narrow-IsQuiet user_kind err_not_user is_named (λ r. refl) user-IsExact
          (User.Observe.observe admin kube dial url tls_settings)
          (user-IsQuiet admin kube dial url tls_settings))
  each-StaysSettled of_service_accounts =
      quiet-StaysSettled (service_account_client admin generate) is_named (
        narrow-IsQuiet service_account_kind err_not_service_account is_named (λ r. refl)
          service_account-IsExact (ServiceAccount.Observe.observe admin)
          (service_account-IsQuiet admin))
  each-StaysSettled of_notifications = quiet-StaysSettled (notification_client mc) is_named (
      narrow-IsQuiet notification_kind err_not_notification_configuration is_named (λ r. refl)
        notification-IsExact (Notification.Observe.observe mc) (notification-IsQuiet mc))

  -- For each of the five controllers: once Observe has found a resource up to date, then whatever
  -- rounds of the reconciler follow, none of them changes MinIO or the cluster or emits an event, and
  -- Observe goes on finding the resource up to date. This is for resources that are not being deleted,
  -- with nobody else at work in between; a User has a name.
  pub Rounds-keep_settled :
      (k : Controller) {w w' : World S Managed}
      → let client = client_of s3 admin kube generate iam mc dial url tls_settings k in
        is_named w.resource ≡ true
        → (client.observe w).0 ≡ ok settled
        → Rounds client w w'
        → (w'.outside ≡ w.outside) × (w'.events ≡ w.events) × ((client.observe w').0 ≡ ok settled)
  Rounds-keep_settled k {w} {w'} named found rounds = each-StaysSettled k w w' named found rounds
