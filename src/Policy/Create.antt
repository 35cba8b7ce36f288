-- ===== src/Policy/Create.antt =====
-- operator/policy/create.go
use provider_minio.Base.GoMap.{has_key}
use provider_minio.Runtime.{
  errorf, Creation, no_creation, M, pure, fail, ◌>>=◌, ◌>>◌, fail_if, query, call, get, emit,
}
use provider_minio.Base.{if◌then◌else◌, is_empty, String, not}
use provider_minio.Apis.Policy.{Policy}
use provider_minio.Apis.Managed.{Managed, narrow, policy_kind}
use provider_minio.Client.Admin.{Admin}
use provider_minio.Client.Iam.{Iam}
use provider_minio.Policy.Render.{get_allow_bucket_policy, set_lock, err_not_policy}

module _ {S P : Type 0} (admin : Admin S) (iam : Iam P) where
  -- `createRawPolicy` for any text: add the policy, emit the event, set the annotation.
  unfoldable pub add_policy : Policy → String → M S Policy (Unit {0})
  unfolding set_lock
  add_policy policy document = do
    call (λ s. admin.add_canned_policy s policy.meta.name document)
    emit "Created" "User successfully created"
    set_lock

  unfoldable pub create_raw_policy : Policy → M S Policy (Unit {0})
  unfolding add_policy
  create_raw_policy policy = add_policy policy policy.spec.for_provider.raw_policy

  -- `createBucketPolicy`
  unfoldable pub create_bucket_policy : Policy → M S Policy (Unit {0})
  unfolding add_policy
  create_bucket_policy policy = do
    parsed ← query (λ _. get_allow_bucket_policy iam policy.spec.for_provider.allow_bucket)
    add_policy policy parsed

  -- What Create adds: one of the two documents, `allowBucket` first.
  unfoldable pub create_document : Policy → M S Policy (Unit {0})
  unfolding create_bucket_policy create_raw_policy
  create_document policy =
      if not (is_empty policy.spec.for_provider.allow_bucket)
      then create_bucket_policy policy
      else if not (is_empty policy.spec.for_provider.raw_policy)
      then create_raw_policy policy
      else fail (errorf "no policy specified")

  -- `Create`, on a Policy.
  unfoldable pub create : M S Policy Creation
  create = do
    policy ← get
    policies ← query admin.list_canned_policies
    fail_if (has_key policy.meta.name policies) (errorf "policy already exists")
    create_document policy
    pure no_creation

  unfoldable pub create_managed : M S Managed Creation
  unfolding narrow create
  create_managed = narrow policy_kind err_not_policy create
