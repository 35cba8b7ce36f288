-- ===== src/Reconcile/Departure.antt =====
-- The deletion of a resource by its client.
use provider_minio.Runtime.{M, Error, is_ok, Observation, ok, World}
use provider_minio.Base.{Option-cases, refl, inl, inr, some, ◌≡◌, Bool, true, false, arith}
use provider_minio.Apis.Managed.{
  Managed, Kind, narrow, bucket_kind, policy_kind, user_kind, service_account_kind,
}
use provider_minio.Client.S3.{S3, Notifications}
use provider_minio.Client.Admin.{Admin, Generate}
use provider_minio.Client.Iam.{Iam}
use provider_minio.Client.Kube.{Kube, Url, Dial}
use provider_minio.Bucket
use provider_minio.Policy
use provider_minio.User
use provider_minio.ServiceAccount
use provider_minio.Bucket.Lock.{err_not_bucket}
use provider_minio.Policy.Render.{err_not_policy}
use provider_minio.User.Policies.{err_not_user}
use provider_minio.ServiceAccount.Identity.{err_not_service_account}
use provider_minio.Reconcile.Client.{
  ExternalClient, bucket_client, policy_client, user_client, service_account_client,
}
use provider_minio.Reconcile.Family.{
  Controller, of_buckets, of_policies, of_users, of_service_accounts, of_notifications, client_of,
}
use provider_minio.Reconcile.Rounds.{deleted_by}
use provider_minio.Reconcile.Removal.{IsRemoving, bucket-gone, policy-gone, user-gone, account-gone}

-- The controllers whose resource is one object of MinIO.
abbrev pub has_object : Controller → Bool
has_object of_buckets = true
has_object of_policies = true
has_object of_users = true
has_object of_service_accounts = true
has_object of_notifications = false

-- A Delete after which Observe does not find what it has found.
abbrev Departs : {S R : Type 0} → M S R Observation → M S R (Unit {0}) → Type 0
Departs {S} {R} observe delete =
    (w : World S R) (o o' : Observation)
    → (observe w).0 ≡ ok o
    → o.resource_exists ≡ true
    → is_ok (delete (observe w).1).0 ≡ true
    → (observe (delete (observe w).1).1).0 ≡ ok o'
    → o'.resource_exists ≡ false

narrow-Departs :
    {S R : Type 0} (kind : Kind R) (e : Error)
    → ((r : R) → kind.cast (kind.wrap r) ≡ some r)
    → (observe : M S R Observation) (delete : M S R (Unit {0})) → Departs observe delete
    → Departs (narrow kind e observe) (narrow kind e delete)
unfolding narrow
narrow-Departs {S} {R} kind e back observe delete departs w o o' h there success after =
    elim (Option-cases (kind.cast w.resource)) [
      | inl foreign ↦ absurd (ground arith)
      | inr (r, own) ↦
          let v : World S R = record { outside = w.outside; events = w.events; resource = r } in
          let seen = (observe v).1 in
          let deleted = (delete seen).1 in
          ground (arith, back seen.resource, back deleted.resource, departs v o o')
    ]

module _ {S : Type 0} (s3 : S3 S) (admin : Admin S) (kube : Kube S) (generate : Generate S)
    {P Rest Pool Cert : Type 0} (iam : Iam P) (mc : Notifications S Rest) (dial : Dial S Pool Cert)
    (url : Url) (tls_settings : Bool) (law : IsRemoving s3 admin) where
  abbrev client : Controller → ExternalClient S
  client k = client_of s3 admin kube generate iam mc dial url tls_settings k

  -- For the controllers of buckets, policies, users and service accounts, over a server on which what was
  -- removed is gone: after a round in which Observe has found the resource and Delete has succeeded, an
  -- Observe that returns an observation reports that the resource does not exist.
  pub deletion_completes :
      (k : Controller) (w : World S Managed) {o o' : Observation}
      → has_object k ≡ true
      → ((client k).observe w).0 ≡ ok o
      → o.resource_exists ≡ true
      → is_ok (deleted_by (client k) w).0 ≡ true
      → ((client k).observe (deleted_by (client k) w).1).0 ≡ ok o'
      → o'.resource_exists ≡ false
  unfolding client_of bucket_client policy_client user_client service_account_client narrow
  deletion_completes of_buckets w {o} {o'} k h there success after =
      narrow-Departs bucket_kind err_not_bucket (λ r. refl) (Bucket.Observe.observe s3)
        (Bucket.Delete.delete s3) (λ w o o'. bucket-gone s3 admin law w) w o o' h there success
        after
  deletion_completes of_policies w {o} {o'} k h there success after =
      narrow-Departs policy_kind err_not_policy (λ r. refl) (Policy.Observe.observe admin iam)
        (Policy.Delete.delete admin)
        (λ w o o' h e. policy-gone s3 admin law iam (Policy.Observe.observe admin iam w).1) w o o' h
        there success after
  deletion_completes of_users w {o} {o'} k h there success after =
      narrow-Departs user_kind err_not_user (λ r. refl)
        (User.Observe.observe admin kube dial url tls_settings) (User.Delete.delete admin)
        (λ w o o' h e.
          user-gone s3 admin law kube dial url tls_settings
            (User.Observe.observe admin kube dial url tls_settings w).1)
        w o o' h there success after
  deletion_completes of_service_accounts w {o} {o'} k h there success after =
      narrow-Departs service_account_kind err_not_service_account (λ r. refl)
        (ServiceAccount.Observe.observe admin) (ServiceAccount.Delete.delete admin)
        (λ w o o'. account-gone s3 admin law w) w o o' h there success after
  deletion_completes of_notifications w k h there success after = absurd (ground arith)
