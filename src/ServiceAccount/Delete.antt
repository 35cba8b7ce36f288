-- ===== src/ServiceAccount/Delete.antt =====
-- operator/serviceaccount/delete.go
use provider_minio.Runtime.{
  ok, err, panic, M, pure, crash, ◌>>=◌, ◌>>◌, when, attempt, call, get, emit,
}
use provider_minio.Base.{is_empty, String, Bool, false, not}
use provider_minio.Apis.ServiceAccount.{ServiceAccount}
use provider_minio.Apis.Managed.{Managed, narrow, service_account_kind}
use provider_minio.Client.Admin.{Admin}
use provider_minio.ServiceAccount.Identity.{
  err_not_service_account, get_external_name, service_account_exists,
}

module _ {S : Type 0} (admin : Admin S) where
  -- An error of the look-up is logged, and counts as `exists == false`.
  unfoldable pub exists_or_false : String → M S ServiceAccount Bool
  unfolding service_account_exists
  exists_or_false access_key = do
    exists ← attempt (service_account_exists admin access_key)
    elim exists [ ok b ↦ pure b | err _ ↦ pure false | panic ↦ crash ]

  -- The call, unless the account does not exist.
  unfoldable pub delete_existing : String → M S ServiceAccount (Unit {0})
  unfolding exists_or_false
  delete_existing access_key = do
    exists ← exists_or_false access_key
    when exists (call (λ s. admin.delete_service_account s access_key))

  -- `Delete`, on a ServiceAccount.
  unfoldable pub delete : M S ServiceAccount (Unit {0})
  unfolding delete_existing get_external_name
  delete = do
    account ← get
    when (not (is_empty (get_external_name account.meta)))
        (delete_existing (get_external_name account.meta))
    emit "Deleted" "Service Account successfully deleted"

  unfoldable pub delete_managed : M S Managed (Unit {0})
  unfolding narrow delete
  delete_managed = narrow service_account_kind err_not_service_account delete
