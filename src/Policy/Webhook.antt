-- ===== src/Policy/Webhook.antt =====
-- operator/policy/webhook.go
use provider_minio.Runtime.{one_text, errorf, Verdict, allowed, refused, invalid, no_name}
use provider_minio.Base.{if◌then◌else◌, is_empty, not, ◌&&◌, [], ◌∷◌}
use provider_minio.Apis.Policy.{Policy}

-- `validatePolicy`
unfoldable pub validate_policy : Policy → Verdict
validate_policy policy =
    if not (is_empty policy.spec.for_provider.allow_bucket)
      && not (is_empty policy.spec.for_provider.raw_policy)
    then refused (
        errorf
          ".spec.forProvider.allowBucket and .spec.forProvider.rawPolicy are mutual exclusive, please only specify one")
    else if no_name policy.spec.managed.provider_config_reference
    then invalid ("spec" ∷ "providerConfigRef" ∷ "name" ∷ []) (one_text "null")
        "Provider config is required"
    else allowed

-- `ValidateCreate`
unfoldable pub validate_create : Policy → Verdict
unfolding validate_policy
validate_create policy = validate_policy policy

-- `ValidateUpdate`
unfoldable pub validate_update : Policy → Policy → Verdict
unfolding validate_policy
validate_update old_policy new_policy = validate_policy new_policy

-- `ValidateDelete`
unfoldable pub validate_delete : Policy → Verdict
validate_delete policy = allowed
