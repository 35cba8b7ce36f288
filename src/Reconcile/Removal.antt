-- ===== src/Reconcile/Removal.antt =====
-- What Observe finds of a resource after it was found and deleted, for each kind.
use provider_minio.Base.GoMap.{GoMap, has_key}
use provider_minio.Runtime.{is_ok, Observation, ok, World, Result-cases}
use provider_minio.Base.{
  is_empty, Bool-cases, String, ◌≡◌, ◌≢◌, sym, ap, ◌∙◌, inl, inr, Bool, true, false, arith,
}
use provider_minio.Apis.Bucket.{Bucket, get_bucket_name}
use provider_minio.Apis.Policy.{Policy}
use provider_minio.Apis.User.{User, get_user_name}
use provider_minio.Apis.ServiceAccount.{ServiceAccount}
use provider_minio.Client.S3.{S3}
use provider_minio.Client.Admin.{Admin, UserInfo, InfoServiceAccountResp}
use provider_minio.Client.Iam.{Iam}
use provider_minio.Client.Kube.{Kube, Url, Dial}
use provider_minio.Bucket
use provider_minio.Policy
use provider_minio.User
use provider_minio.ServiceAccount
use provider_minio.Bucket.Delete.{delete_all_objects, has_delete_all_policy}
use provider_minio.Bucket.Deletion.{delete_event, observe_names_bucket}
use provider_minio.Bucket.Ownership.{bucket_exists_iff, observe_frame}
use provider_minio.Policy.Ownership.{policy_exists_iff}
use provider_minio.User.Ownership.{user_exists_iff}
use provider_minio.Reconcile.Arrival.{success-ok}
use provider_minio.ServiceAccount.Removal.{account_delete_found}
use provider_minio.ServiceAccount.Identity.{get_external_name}

-- What is relied on: what was removed is gone.
pub record IsRemoving {S : Type 0} (s3 : S3 S) (admin : Admin S) : Type 0 where
  pub bucket_gone :
      (s : S) (name : String)
      → (s3.remove_bucket s name).0 ≡ ok tt
      → s3.bucket_exists (s3.remove_bucket s name).1 name ≢ ok true
  pub policy_gone :
      (s : S) (name : String) (policies : GoMap String)
      → (admin.remove_canned_policy s name).0 ≡ ok tt
      → admin.list_canned_policies (admin.remove_canned_policy s name).1 ≡ ok policies
      → has_key name policies ≡ false
  pub user_gone :
      (s : S) (name : String) (users : GoMap UserInfo)
      → (admin.remove_user s name).0 ≡ ok tt
      → admin.list_users (admin.remove_user s name).1 ≡ ok users
      → has_key name users ≡ false
  pub account_gone :
      (s : S) (key : String) (info : InfoServiceAccountResp)
      → (admin.delete_service_account s key).0 ≡ ok tt
      → admin.info_service_account (admin.delete_service_account s key).1 key ≢ ok info

module _ {S : Type 0} (s3 : S3 S) (admin : Admin S) (law : IsRemoving s3 admin) where
  -- The last call of Delete is the removal.
  bucket_removed :
      (w : World S Bucket)
      → is_ok (Bucket.Delete.delete s3 w).0 ≡ true
      → let name = w.resource.status.at_provider.bucket_name in
        (s : S) × ((s3.remove_bucket s name).0 ≡ ok tt)
        × ((Bucket.Delete.delete s3 w).1.outside ≡ (s3.remove_bucket s name).1)
  unfolding Bucket.Delete.delete
  bucket_removed w h = elim (Bool-cases (has_delete_all_policy w.resource)) [
    | inl all ↦ ((delete_all_objects s3 w.resource w).1.outside, ground arith, ground arith)
    | inr kept ↦ (w.outside, ground arith, ground arith)
  ]

  same_name :
      (w : World S Bucket)
      → get_bucket_name (Bucket.Observe.observe s3 w).1.resource ≡ get_bucket_name w.resource
  unfolding get_bucket_name
  same_name w = ground (arith, observe_frame s3 w)

  pub bucket-gone :
      (w : World S Bucket) {o o' : Observation}
      → let seen = Bucket.Observe.observe s3 w in
        let deleted = Bucket.Delete.delete s3 seen.1 in
        seen.0 ≡ ok o
        → o.resource_exists ≡ true
        → is_ok deleted.0 ≡ true
        → (Bucket.Observe.observe s3 deleted.1).0 ≡ ok o'
        → o'.resource_exists ≡ false
  bucket-gone w {o} {o'} h there success after =
      let seen = (Bucket.Observe.observe s3 w).1 in
      let deleted = (Bucket.Delete.delete s3 seen).1 in
      let (s, removed, left) = bucket_removed seen success in
      let named : seen.resource.status.at_provider.bucket_name ≡ get_bucket_name deleted.resource =
        observe_names_bucket s3 w h there
        ∙ sym (ap get_bucket_name (delete_event s3 seen).1 ∙ same_name w) in
      elim (Bool-cases o'.resource_exists) [
        | inl still ↦
            let (exists, _) = (bucket_exists_iff s3 deleted after).0 still in
            absurd (
              law.bucket_gone s _ removed (
                ap
                  (λ n.
                    s3.bucket_exists
                      (s3.remove_bucket s seen.resource.status.at_provider.bucket_name).1 n)
                  named
                ∙ (ap (λ t. s3.bucket_exists t (get_bucket_name deleted.resource)) (sym left)
                    ∙ exists)))
        | inr gone ↦ gone
      ]

  pub policy-gone :
      {P : Type 0} (iam : Iam P) (w : World S Policy) {o' : Observation}
      → is_ok (Policy.Delete.delete admin w).0 ≡ true
      → (Policy.Observe.observe admin iam (Policy.Delete.delete admin w).1).0 ≡ ok o'
      → o'.resource_exists ≡ false
  unfolding Policy.Delete.delete
  policy-gone iam w {o'} success after = elim (Bool-cases o'.resource_exists) [
    | inl still ↦
        let (_, (policies, listed, has)) =
          (policy_exists_iff admin iam (Policy.Delete.delete admin w).1 after).0 still in
        absurd (ground (arith, law.policy_gone w.outside w.resource.meta.name policies))
    | inr gone ↦ gone
  ]

  pub user-gone :
      {Pool Cert : Type 0} (kube : Kube S) (dial : Dial S Pool Cert) (url : Url) (tls : Bool)
      (w : World S User) {o' : Observation}
      → is_ok (User.Delete.delete admin w).0 ≡ true
      → (User.Observe.observe admin kube dial url tls (User.Delete.delete admin w).1).0 ≡ ok o'
      → o'.resource_exists ≡ false
  unfolding User.Delete.delete get_user_name
  user-gone kube dial url tls w {o'} success after = elim (Bool-cases o'.resource_exists) [
    | inl still ↦
        let (_, (users, listed, has)) =
          (user_exists_iff admin kube dial url tls (User.Delete.delete admin w).1 after).0 still in
        absurd (ground (arith, law.user_gone w.outside (get_user_name w.resource) users))
    | inr gone ↦ gone
  ]

  -- An account that Observe finds is there under its key.
  observed_account :
      (w : World S ServiceAccount) {o : Observation}
      → (ServiceAccount.Observe.observe admin w).0 ≡ ok o
      → o.resource_exists ≡ true
      → let key = get_external_name w.resource.meta in
        (is_empty key ≡ false)
        × ((info : InfoServiceAccountResp) × (admin.info_service_account w.outside key ≡ ok info))
  unfolding ServiceAccount.Observe.observe
  observed_account w h there =
      elim (Result-cases
        (admin.info_service_account w.outside (get_external_name w.resource.meta))) [
          | inl (info, found) ↦ (ground arith, (info, found))
          | inr (inl (e, missing)) ↦ absurd (ground arith)
          | inr (inr crashed) ↦ absurd (ground arith)
        ]

  same_account :
      (w : World S ServiceAccount)
      → ((ServiceAccount.Observe.observe admin w).1.outside ≡ w.outside)
        × ((ServiceAccount.Observe.observe admin w).1.resource.meta ≡ w.resource.meta)
        × ((ServiceAccount.Delete.delete admin w).1.resource ≡ w.resource)
  unfolding ServiceAccount.Observe.observe ServiceAccount.Delete.delete
  same_account w = (ground arith, ground arith, ground arith)

  pub account-gone :
      (w : World S ServiceAccount) {o o' : Observation}
      → let seen = ServiceAccount.Observe.observe admin w in
        let deleted = ServiceAccount.Delete.delete admin seen.1 in
        seen.0 ≡ ok o
        → o.resource_exists ≡ true
        → is_ok deleted.0 ≡ true
        → (ServiceAccount.Observe.observe admin deleted.1).0 ≡ ok o'
        → o'.resource_exists ≡ false
  account-gone w {o} {o'} h there success after =
      let seen = (ServiceAccount.Observe.observe admin w).1 in
      let deleted = (ServiceAccount.Delete.delete admin seen).1 in
      let key = get_external_name seen.resource.meta in
      let (outside, meta, _) = same_account w in
      let (_, _, kept) = same_account seen in
      let (named, (info, found)) = observed_account w h there in
      let same : get_external_name w.resource.meta ≡ key = ap get_external_name (sym meta) in
      let there : admin.info_service_account seen.outside key ≡ ok info =
        ap (λ s. admin.info_service_account s key) outside
        ∙ (ap (admin.info_service_account w.outside) (sym same) ∙ found) in
      let (result, left, _) =
        account_delete_found admin seen (ap is_empty (sym same) ∙ named) there in
      elim (Bool-cases o'.resource_exists) [
        | inl still ↦
            let (_, (info', again)) = observed_account deleted after still in
            absurd (
              law.account_gone seen.outside key info' (sym result ∙ (success-ok _ success).1) (
                ap (λ s. admin.info_service_account s key) (sym left)
                ∙ (ap
                      (λ (a : ServiceAccount).
                        admin.info_service_account deleted.outside (get_external_name a.meta))
                      (sym kept)
                    ∙ again)))
        | inr gone ↦ gone
      ]
