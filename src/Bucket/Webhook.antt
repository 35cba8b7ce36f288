-- ===== src/Bucket/Webhook.antt =====
-- operator/bucket/webhook.go
use provider_minio.Runtime.{one_text, errorf, Verdict, allowed, refused, invalid, no_name}
use provider_minio.Base.{if◌then◌else◌, ◌!=◌, is_empty, [], ◌∷◌}
use provider_minio.Apis.Bucket.{Bucket, get_bucket_name}

-- `ValidateCreate`
unfoldable pub validate_create : Bucket → Verdict
validate_create bucket =
    if no_name bucket.spec.managed.provider_config_reference
    then refused (errorf ".spec.providerConfigRef.name is required")
    else allowed

-- The reference to the provider's configuration is checked last.
unfoldable pub validate_reference : Bucket → Verdict
validate_reference bucket =
    if no_name bucket.spec.managed.provider_config_reference
    then invalid ("spec" ∷ "providerConfigRef" ∷ "name" ∷ []) (one_text "null")
        "Provider config is required"
    else allowed

-- `ValidateUpdate`
unfoldable pub validate_update : Bucket → Bucket → Verdict
unfolding validate_reference
validate_update old_bucket new_bucket =
    if is_empty old_bucket.status.at_provider.bucket_name
    then validate_reference new_bucket
    else if get_bucket_name new_bucket != old_bucket.status.at_provider.bucket_name
    then invalid ("spec" ∷ "forProvider" ∷ "bucketName" ∷ [])
        (one_text new_bucket.spec.for_provider.bucket_name)
        "Changing the bucket name is not allowed after creation"
    else if new_bucket.spec.for_provider.region != old_bucket.spec.for_provider.region
    then invalid ("spec" ∷ "forProvider" ∷ "region" ∷ [])
        (one_text new_bucket.spec.for_provider.region)
        "Changing the region is not allowed after creation"
    else validate_reference new_bucket

-- `ValidateDelete`
unfoldable pub validate_delete : Bucket → Verdict
validate_delete bucket = allowed
