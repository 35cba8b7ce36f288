-- ===== src/Bucket/Admission.antt =====
-- What the webhook lets through.
use provider_minio.Runtime.{allowed, Observation, ok, World, no_name}
use provider_minio.Base.{◌≡◌, ◌≢◌, ◌↔◌, ◌⊎◌, true, false, arith, eq_iff}
use provider_minio.Apis.Bucket.{Bucket, get_bucket_name}
use provider_minio.Client.S3.{S3}
use provider_minio.Bucket.Observe.{observe}
use provider_minio.Bucket.Deletion.{observe_names_bucket}
use provider_minio.Bucket.Webhook.{validate_update}

-- An update is let through exactly when it refers to a configuration and, once the status names a
-- bucket, keeps that name and the region.
bucket_update_iff :
    (old new : Bucket)
    → (validate_update old new ≡ allowed) ↔ (
        (no_name new.spec.managed.provider_config_reference ≡ false)
        × ((old.status.at_provider.bucket_name ≡ "")
            ⊎ ((get_bucket_name new ≡ old.status.at_provider.bucket_name)
                × (new.spec.for_provider.region ≡ old.spec.for_provider.region))))
unfolding validate_update
bucket_update_iff old new = ground (
  arith,
  eq_iff old.status.at_provider.bucket_name "",
  eq_iff (get_bucket_name new) old.status.at_provider.bucket_name,
  eq_iff new.spec.for_provider.region old.spec.for_provider.region,
)

-- Once Observe has found the bucket of a Bucket, every update that the webhook lets through names
-- the same bucket.
observe-validate_update :
    {S : Type 0} (s3 : S3 S) (w : World S Bucket) (new : Bucket) {o : Observation}
    → (observe s3 w).0 ≡ ok o
    → o.resource_exists ≡ true
    → get_bucket_name w.resource ≢ ""
    → validate_update (observe s3 w).1.resource new ≡ allowed
    → get_bucket_name new ≡ get_bucket_name w.resource
observe-validate_update s3 w new h e named accepted =
    let named_so = observe_names_bucket s3 w h e in
    let kept = (bucket_update_iff (observe s3 w).1.resource new).0 accepted in ground arith
