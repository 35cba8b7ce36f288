-- ===== src/User/Observe.antt =====
-- operator/user/observe.go
use provider_minio.Base.GoMap.{GoMap, lookup}
use provider_minio.Runtime.{
  error_text, available, Observation, no_observation, Result, ok, err, panic, M, pure, crash, ◌>>=◌,
  ◌>>◌, query, get, modify, has_annotation,
}
use provider_minio.Base.{
  if◌then◌else◌, ◌==◌, is_empty, String, Bool, true, false, not, ◌&&◌, none, some, ◌∷◌,
}
use provider_minio.Apis.User.{User, get_user_name}
use provider_minio.Apis.Managed.{Managed, narrow, user_kind}
use provider_minio.Apis.Conditions.{updating, disabled}
use provider_minio.Client.Admin.{Admin, UserInfo, account_enabled}
use provider_minio.Client.Kube.{Kube, Url, Endpoint, Dial}
use provider_minio.Minio.Endpoints.{data_of}
use provider_minio.User.Policies.{
  err_not_user, user_created_annotation_key, access_key_name, secret_key_name, set_condition,
  equal_policies,
}

-- `Status.AtProvider.UserName = name`
unfoldable pub set_user_name : String → User → User
set_user_name name u = record u {
  status = record (u.status) { at_provider = record (u.status.at_provider) { user_name = name } };
}

-- The status and the condition of a user that MinIO has.
unfoldable pub set_info : UserInfo → User → User
set_info info u = record u {
  status = record {
    conditions =
        (if info.status == account_enabled then available else disabled) ∷ u.status.conditions;
    at_provider = record (u.status.at_provider) {
      status = info.status;
      policies = info.policy_name;
    };
  };
}

-- The user exists; is it up to date?
abbrev pub existing : Bool → Observation
existing latest = record { resource_exists = true; resource_up_to_date = latest }

-- `Access Denied.` is fine: the credentials work.
unfoldable pub works : {A : Type 0} → Result A → Result Bool
works (ok _) = ok true
works (err e) = ok (error_text e == "Access Denied.")
works panic = panic

module _ {S Pool Cert : Type 0} (admin : Admin S) (kube : Kube S) (dial : Dial S Pool Cert) where
  module _ (url : Url) (tls_settings : Bool) where
    -- The client with the credentials of the connection secret.
    unfoldable pub user_endpoint : GoMap String → Endpoint Pool Cert
    unfolding data_of
    user_endpoint secret = record {
      host = url.host;
      access_key = data_of access_key_name secret;
      secret_key = data_of secret_key_name secret;
      secure = tls_settings;
      transport = none;
    }

    -- Do the credentials let the user in?
    unfoldable pub can_log_in : GoMap String → S → Result Bool
    unfolding user_endpoint works
    can_log_in secret s = elim (dial.new_minio (user_endpoint secret)) [
      | ok _ ↦ works (dial.list_buckets s (user_endpoint secret))
      | err e ↦ ok false
      | panic ↦ panic
    ]

    -- The trial of the credentials, unless the object is being deleted. Without a reference to a
    -- connection secret a nil pointer is read.
    unfoldable pub check_credentials : User → M S User Observation
    unfolding can_log_in
    check_credentials user = elim user.meta.deletion_timestamp [
      | some _ ↦ pure (existing true)
      | none ↦ elim user.spec.managed.write_connection_secret_to_reference [
        | none ↦ crash
        | some name ↦ do
          secret ← query (λ s. kube.get_secret s user.meta.namespace name)
          working ← query (can_log_in secret)
          pure (existing working)
      ]
    ]

    unfoldable pub compare_user : User → UserInfo → M S User Observation
    unfolding equal_policies set_condition set_info check_credentials
    compare_user user info =
        if equal_policies info user
        then modify (set_info info) >> check_credentials user
        else modify (set_condition updating) >> pure (existing false)

    unfoldable pub observe_created : User → M S User Observation
    unfolding set_user_name compare_user lookup
    observe_created user = do
      modify (set_user_name (get_user_name user))
      users ← query admin.list_users
      elim (lookup (get_user_name user) users) [
        | none ↦ modify (set_user_name "") >> pure no_observation
        | some info ↦ compare_user user info
      ]

    -- `Observe`, on a User.
    unfoldable pub observe : M S User Observation
    unfolding observe_created
    observe = do
      user ← get
      if not (has_annotation user_created_annotation_key user.meta)
            && is_empty user.status.at_provider.user_name
          then pure no_observation
          else observe_created user

    unfoldable pub observe_managed : M S Managed Observation
    unfolding narrow observe
    observe_managed = narrow user_kind err_not_user observe
