-- ===== src/Policy/Update.antt =====
-- operator/policy/update.go
use provider_minio.Base.GoMap.{has_key}
use provider_minio.Runtime.{errorf, M, pure, ◌>>=◌, ◌>>◌, fail_if, query, get, emit}
use provider_minio.Base.{if◌then◌else◌, is_empty, not}
use provider_minio.Apis.Policy.{Policy}
use provider_minio.Apis.Managed.{Managed, narrow, policy_kind}
use provider_minio.Client.Admin.{Admin}
use provider_minio.Client.Iam.{Iam}
use provider_minio.Policy.Create.{create_bucket_policy, create_raw_policy}
use provider_minio.Policy.Render.{err_not_policy}

module _ {S P : Type 0} (admin : Admin S) (iam : Iam P) where
  -- The document that is written again, `allowBucket` first. The event comes before the call.
  unfoldable pub update_document : Policy → M S Policy (Unit {0})
  unfolding create_bucket_policy create_raw_policy
  update_document policy =
      if not (is_empty policy.spec.for_provider.allow_bucket)
      then emit "Updated" "Policy successfully updated" >> create_bucket_policy admin iam policy
      else if not (is_empty policy.spec.for_provider.raw_policy)
      then emit "Updated" "Policy successfully updated" >> create_raw_policy admin iam policy
      else pure tt

  -- `Update`, on a Policy.
  unfoldable pub update : M S Policy (Unit {0})
  update = do
    policy ← get
    policies ← query admin.list_canned_policies
    fail_if (not (has_key policy.meta.name policies)) (errorf "policy does not exist")
    update_document policy

  unfoldable pub update_managed : M S Managed (Unit {0})
  unfolding narrow update
  update_managed = narrow policy_kind err_not_policy update
