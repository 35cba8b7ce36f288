-- ===== src/ServiceAccount/Observe.antt =====
-- operator/serviceaccount/observe.go. The connection secret is only read to log whether it is there.
use provider_minio.Runtime.{
  Condition, available, Observation, no_observation, ok, err, panic, M, pure, fail, crash, ◌>>=◌,
  ◌>>◌, attempt, get, modify,
}
use provider_minio.Base.{
  if◌then◌else◌, nat_eq, ◌==◌, ◌!=◌, is_empty, ℕ, String, Bool, true, false, not, ◌&&◌, Option,
  none, some, ◌∷◌,
}
use provider_minio.Apis.ServiceAccount.{ServiceAccount, ServiceAccountParameters}
use provider_minio.Apis.Conditions.{updating, disabled}
use provider_minio.Apis.Managed.{Managed, narrow, service_account_kind}
use provider_minio.Client.Admin.{Admin, InfoServiceAccountResp}
use provider_minio.ServiceAccount.Identity.{
  err_not_service_account, get_external_name, is_not_found,
}

-- Two expiration times agree: both are nil, or both are the same instant.
unfoldable pub same_expiration : Option ℕ → Option ℕ → Bool
same_expiration none none = true
same_expiration (some t) (some u) = nat_eq t u
same_expiration _ _ = false

-- `isUpToDate`
unfoldable pub is_up_to_date : ServiceAccountParameters → InfoServiceAccountResp → Bool
unfolding same_expiration
is_up_to_date spec info =
    if not (is_empty spec.policy) && spec.policy != info.policy
    then false
    else same_expiration spec.expiration info.expiration

-- The status after a look at MinIO. An expiration in the status is not removed.
unfoldable pub set_status : String → InfoServiceAccountResp → ServiceAccount → ServiceAccount
set_status access_key info a = record a {
  status = record (a.status) {
    at_provider = record {
      access_key = access_key;
      account_status = info.account_status;
      parent_user = info.parent_user;
      implied_policy = info.implied_policy;
      policy = info.policy;
      expiration = elim info.expiration [
        | none ↦ a.status.at_provider.expiration
        | some t ↦ some t
      ];
    };
  };
}

unfoldable pub set_condition : Condition → ServiceAccount → ServiceAccount
set_condition c a = record a { status = record (a.status) { conditions = c ∷ a.status.conditions } }

-- The condition of an account that is as specified.
unfoldable pub account_condition : String → Condition
unfolding disabled
account_condition account_status = if account_status == "enabled" then available else disabled

module _ {S : Type 0} (admin : Admin S) where
  -- What follows once the account has been found.
  unfoldable pub compare_account :
      ServiceAccount → String → InfoServiceAccountResp → M S ServiceAccount Observation
  unfolding set_status set_condition account_condition is_up_to_date updating
  compare_account account access_key info = do
    modify (set_status access_key info)
    let latest = is_up_to_date account.spec.for_provider info
    modify (set_condition (if latest then account_condition info.account_status else updating))
    pure (record { resource_exists = true; resource_up_to_date = latest })

  unfoldable pub observe_named : ServiceAccount → String → M S ServiceAccount Observation
  unfolding compare_account is_not_found
  observe_named account access_key = do
    found ← attempt (λ s. admin.info_service_account s access_key)
    elim found [
      | ok info ↦ compare_account account access_key info
      | err e ↦ if is_not_found e then pure no_observation else fail e
      | panic ↦ crash
    ]

  -- `Observe`, on a ServiceAccount.
  unfoldable pub observe : M S ServiceAccount Observation
  unfolding observe_named get_external_name
  observe = do
    account ← get
    if is_empty (get_external_name account.meta)
        then pure no_observation
        else observe_named account (get_external_name account.meta)

  unfoldable pub observe_managed : M S Managed Observation
  unfolding narrow observe
  observe_managed = narrow service_account_kind err_not_service_account observe
