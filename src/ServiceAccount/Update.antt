-- ===== src/ServiceAccount/Update.antt =====
-- operator/serviceaccount/update.go
use provider_minio.Runtime.{errorf, M, ◌>>=◌, ◌>>◌, fail_if, call, get, emit}
use provider_minio.Base.{if◌then◌else◌, is_empty, none, some}
use provider_minio.Apis.ServiceAccount.{ServiceAccount, ServiceAccountParameters}
use provider_minio.Apis.Managed.{Managed, narrow, service_account_kind}
use provider_minio.Client.Admin.{Admin, UpdateServiceAccountReq}
use provider_minio.ServiceAccount.Identity.{err_not_service_account, get_external_name}

-- The request. A field that is "" or nil in it is one that the specification leaves out.
unfoldable pub update_request : ServiceAccountParameters → UpdateServiceAccountReq
update_request spec = record {
  new_policy = if is_empty spec.policy then none else some spec.policy;
  new_secret_key = spec.secret_key;
  new_name = spec.name;
  new_description = spec.description;
  new_expiration = spec.expiration;
}

module _ {S : Type 0} (admin : Admin S) where
  -- `Update`, on a ServiceAccount.
  unfoldable pub update : M S ServiceAccount (Unit {0})
  unfolding get_external_name update_request
  update = do
    account ← get
    let access_key = get_external_name account.meta
    fail_if (is_empty access_key)
        (errorf "service account has not been created yet (no external-name)")
    call (λ s. admin.update_service_account s access_key (update_request account.spec.for_provider))
    emit "Updated" "Service Account successfully updated"

  unfoldable pub update_managed : M S Managed (Unit {0})
  unfolding narrow update
  update_managed = narrow service_account_kind err_not_service_account update
