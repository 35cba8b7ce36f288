-- ===== src/User/Update.antt =====
-- operator/user/update.go
use provider_minio.Runtime.{M, pure, crash, ◌>>=◌, ◌>>◌, query, call, get, emit}
use provider_minio.Base.{if◌then◌else◌, is_nil, none, some}
use provider_minio.Apis.User.{User, get_user_name}
use provider_minio.Apis.Managed.{Managed, narrow, user_kind}
use provider_minio.Client.Admin.{Admin, UserInfo, account_enabled}
use provider_minio.Client.Kube.{Kube}
use provider_minio.Minio.Endpoints.{data_of}
use provider_minio.User.Policies.{
  err_not_user, access_key_name, secret_key_name, split_policies, set_user_policies,
}

module _ {S : Type 0} (admin : Admin S) (kube : Kube S) where
  -- The policies that MinIO lists are detached, if there are any.
  unfoldable pub detach_policies : User → UserInfo → M S User (Unit {0})
  unfolding split_policies
  detach_policies user info =
      let policies = split_policies info.policy_name in
      if is_nil policies
      then pure tt
      else call (λ s. admin.detach_policy s policies (get_user_name user))

  -- The credentials of the connection secret are set again, unless the object is being deleted.
  unfoldable pub restore_credentials : User → M S User (Unit {0})
  unfolding data_of
  restore_credentials user = elim user.meta.deletion_timestamp [
    | some _ ↦ pure tt
    | none ↦ elim user.spec.managed.write_connection_secret_to_reference [
      | none ↦ crash
      | some name ↦ do
        secret ← query (λ s. kube.get_secret s user.meta.namespace name)
        call (λ s.
            admin.set_user s (data_of access_key_name secret) (data_of secret_key_name secret)
              account_enabled)
    ]
  ]

  -- `Update`, on a User.
  unfoldable pub update : M S User (Unit {0})
  unfolding detach_policies set_user_policies restore_credentials
  update = do
    user ← get
    info ← query (λ s. admin.get_user_info s (get_user_name user))
    detach_policies user info
    set_user_policies admin (get_user_name user) user.spec.for_provider.policies
    restore_credentials user
    emit "Updated" "User successfully updated"

  unfoldable pub update_managed : M S Managed (Unit {0})
  unfolding narrow update
  update_managed = narrow user_kind err_not_user update
