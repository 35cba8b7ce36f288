-- ===== src/Bucket/Update.antt =====
-- operator/bucket/update.go
use provider_minio.Runtime.{M, pure, ◌>>=◌, ◌>>◌, call, get}
use provider_minio.Base.{if◌then◌else◌, is_nil, none, some}
use provider_minio.Apis.Bucket.{Bucket, get_bucket_name}
use provider_minio.Apis.Managed.{Managed, narrow, bucket_kind}
use provider_minio.Client.S3.{S3}
use provider_minio.Bucket.Create.{create_policy}
use provider_minio.Bucket.Lock.{err_not_bucket}

module _ {S : Type 0} (s3 : S3 S) where
  -- An empty map removes the tags of the bucket, another replaces them.
  unfoldable pub update_tags : Bucket → M S Bucket (Unit {0})
  update_tags bucket = elim bucket.spec.for_provider.tags [
    | none ↦ pure tt
    | some tags ↦
        if is_nil tags then call (λ s. s3.remove_bucket_tagging s (get_bucket_name bucket)) else do
          bucket_tags ← (λ w. (s3.new_tags tags, w))
          call (λ s. s3.set_bucket_tagging s (get_bucket_name bucket) bucket_tags)
  ]

  -- `Update`, on a Bucket. Its first step is that of `Create`.
  unfoldable pub update : M S Bucket (Unit {0})
  unfolding create_policy update_tags
  update = do bucket ← get; create_policy s3 bucket; update_tags bucket

  unfoldable pub update_managed : M S Managed (Unit {0})
  unfolding narrow update
  update_managed = narrow bucket_kind err_not_bucket update
