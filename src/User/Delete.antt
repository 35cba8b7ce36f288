-- ===== src/User/Delete.antt =====
-- operator/user/delete.go
use provider_minio.Runtime.{deleting, M, ◌>>=◌, ◌>>◌, call, get, modify, emit}
use provider_minio.Apis.User.{User, get_user_name}
use provider_minio.Apis.Managed.{Managed, narrow, user_kind}
use provider_minio.Client.Admin.{Admin}
use provider_minio.User.Policies.{err_not_user, set_condition}

module _ {S : Type 0} (admin : Admin S) where
  -- `Delete`, on a User.
  unfoldable pub delete : M S User (Unit {0})
  unfolding set_condition
  delete = do
    user ← get
    call (λ s. admin.remove_user s (get_user_name user))
    emit "Deleted" "User successfully deleted"
    modify (set_condition deleting)

  unfoldable pub delete_managed : M S Managed (Unit {0})
  unfolding narrow delete
  delete_managed = narrow user_kind err_not_user delete
