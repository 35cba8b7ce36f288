-- ===== src/Policy/Delete.antt =====
-- operator/policy/delete.go
use provider_minio.Runtime.{deleting, M, ◌>>=◌, ◌>>◌, call, get, modify, emit}
use provider_minio.Apis.Policy.{Policy}
use provider_minio.Apis.Managed.{Managed, narrow, policy_kind}
use provider_minio.Client.Admin.{Admin}
use provider_minio.Policy.Observe.{set_condition}
use provider_minio.Policy.Render.{err_not_policy}

module _ {S : Type 0} (admin : Admin S) where
  -- `Delete`, on a Policy. The event comes before the call.
  unfoldable pub delete : M S Policy (Unit {0})
  unfolding set_condition
  delete = do
    policy ← get
    modify (set_condition deleting)
    emit "Deleted" "Policy successfully deleted"
    call (λ s. admin.remove_canned_policy s policy.meta.name)

  unfoldable pub delete_managed : M S Managed (Unit {0})
  unfolding narrow delete
  delete_managed = narrow policy_kind err_not_policy delete
