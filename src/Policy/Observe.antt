-- ===== src/Policy/Observe.antt =====
-- operator/policy/observer.go
use provider_minio.Base.GoMap.{lookup}
use provider_minio.Runtime.{
  Condition, available, Observation, no_observation, M, pure, ◌>>=◌, ◌>>◌, query, get, modify,
  has_annotation,
}
use provider_minio.Base.{if◌then◌else◌, is_empty, String, Bool, true, false, not, none, some, ◌∷◌}
use provider_minio.Apis.Policy.{Policy}
use provider_minio.Apis.Conditions.{updating}
use provider_minio.Apis.Managed.{Managed, narrow, policy_kind}
use provider_minio.Client.Admin.{Admin}
use provider_minio.Client.Iam.{Iam}
use provider_minio.Policy.Render.{
  get_allow_bucket_policy, same_object, err_not_policy, policy_created_annotation_key,
}

unfoldable pub set_condition : Condition → Policy → Policy
set_condition c p = record p { status = record (p.status) { conditions = c ∷ p.status.conditions } }

-- The status of a policy that is up to date: the text that MinIO has, and the condition Available.
unfoldable pub set_available : String → Policy → Policy
set_available text p = record p {
  status = record {
    at_provider = record { policy = text };
    conditions = available ∷ p.status.conditions;
  };
}

module _ {S P : Type 0} (admin : Admin S) (iam : Iam P) where
  -- Is the document that `allowBucket` stands for the one that MinIO has?
  unfoldable pub allow_bucket_matches : Policy → String → M S Policy Bool
  allow_bucket_matches policy text =
      if not (is_empty policy.spec.for_provider.allow_bucket)
      then (do
        expected ← query (λ _. get_allow_bucket_policy iam policy.spec.for_provider.allow_bucket)
        query (λ _. same_object iam expected text))
      else pure true

  unfoldable pub raw_policy_matches : Policy → String → M S Policy Bool
  raw_policy_matches policy text =
      if not (is_empty policy.spec.for_provider.raw_policy)
      then query (λ _. same_object iam policy.spec.for_provider.raw_policy text)
      else pure true

  unfoldable pub out_of_date : M S Policy Observation
  unfolding set_condition updating
  out_of_date = do
    modify (set_condition updating)
    pure (record { resource_exists = true; resource_up_to_date = false })

  unfoldable pub up_to_date : String → M S Policy Observation
  unfolding set_available
  up_to_date text = do
    modify (set_available text)
    pure (record { resource_exists = true; resource_up_to_date = true })

  -- What follows once the policy's text has been found.
  unfoldable pub compare_policy : Policy → String → M S Policy Observation
  unfolding out_of_date up_to_date allow_bucket_matches raw_policy_matches
  compare_policy policy text = do
    bucket_equal ← allow_bucket_matches policy text
    raw_equal ← if bucket_equal then raw_policy_matches policy text else pure false
    if raw_equal then up_to_date text else out_of_date

  unfoldable pub observe_created : Policy → M S Policy Observation
  unfolding compare_policy
  observe_created policy = do
    policies ← query admin.list_canned_policies
    elim (lookup policy.meta.name policies) [
      | none ↦ pure no_observation
      | some text ↦ compare_policy policy text
    ]

  -- `Observe`, on a Policy.
  unfoldable pub observe : M S Policy Observation
  unfolding observe_created has_annotation
  observe = do
    policy ← get
    if has_annotation policy_created_annotation_key policy.meta
        then observe_created policy
        else pure no_observation

  unfoldable pub observe_managed : M S Managed Observation
  unfolding narrow observe
  observe_managed = narrow policy_kind err_not_policy observe
