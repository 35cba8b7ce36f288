-- ===== src/Bucket/Create.antt =====
-- operator/bucket/create.go
use provider_minio.Runtime.{
  Creation, no_creation, ok, err, panic, M, pure, fail, crash, ◌>>=◌, ◌>>◌, attempt, call,
  attempt_call, get, modify, emit,
}
use provider_minio.Base.{true, none, some}
use provider_minio.Apis.Bucket.{Bucket, get_bucket_name}
use provider_minio.Apis.Managed.{Managed, narrow, bucket_kind}
use provider_minio.Client.S3.{S3}
use provider_minio.Bucket.Lock.{set_lock, err_not_bucket}

module _ {S : Type 0} (s3 : S3 S) where
  -- `createS3Bucket`. A failure is forgiven if the bucket is there and we may look at it.
  unfoldable pub create_s3_bucket : M S Bucket (Unit {0})
  create_s3_bucket = do
    bucket ← get
    let name = get_bucket_name bucket
    made ← attempt_call (λ s. s3.make_bucket s name bucket.spec.for_provider.region)
    elim made [
      | ok _ ↦ pure tt
      | panic ↦ crash
      | err e ↦ do
        exists ← attempt (λ s. s3.bucket_exists s name)
        elim exists [ ok true ↦ pure tt | panic ↦ crash | _ ↦ fail e ]
    ]

  -- The policy, if one is given.
  unfoldable pub create_policy : Bucket → M S Bucket (Unit {0})
  create_policy bucket = elim bucket.spec.for_provider.policy [
    | none ↦ pure tt
    | some policy ↦ call (λ s. s3.set_bucket_policy s (get_bucket_name bucket) policy)
  ]

  -- The tags, unless the map is nil.
  unfoldable pub create_tags : Bucket → M S Bucket (Unit {0})
  create_tags bucket = elim bucket.spec.for_provider.tags [
    | none ↦ pure tt
    | some tags ↦ do
      bucket_tags ← (λ w. (s3.new_tags tags, w))
      call (λ s. s3.set_bucket_tagging s (get_bucket_name bucket) bucket_tags)
  ]

  -- `Create`, on a Bucket.
  unfoldable pub create : M S Bucket Creation
  unfolding create_s3_bucket create_policy create_tags set_lock
  create = do
    create_s3_bucket
    bucket ← get
    create_policy bucket
    create_tags bucket
    modify set_lock
    emit "Created" "Bucket successfully created"
    pure no_creation

  unfoldable pub create_managed : M S Managed Creation
  unfolding narrow create
  create_managed = narrow bucket_kind err_not_bucket create
