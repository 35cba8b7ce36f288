-- ===== src/Bucket/Observe.antt =====
-- operator/bucket/observe.go
use provider_minio.Base.GoMap.{GoMap, map_deep_equal}
use provider_minio.Runtime.{
  Error, errorf, wrap, available, Observation, no_observation, Result, ok, err, panic, M, pure,
  fail, crash, ◌>>=◌, ◌>>◌, attempt, get, modify,
}
use provider_minio.Base.{
  if◌then◌else◌, nat_eq, ◌==◌, is_nil, String, ◌<>◌, Bool, true, ◌&&◌, none, some, ◌∷◌,
}
use provider_minio.Apis.Bucket.{Bucket, get_bucket_name}
use provider_minio.Apis.Managed.{Managed, narrow, bucket_kind}
use provider_minio.Client.S3.{S3}
use provider_minio.Bucket.Lock.{is_locked, err_not_bucket}

-- `errors.Wrap(err, text)` around the error of a query.
unfoldable pub wrapped : {S : Type 0} → String → (S → Result Bool) → M S Bucket Bool
wrapped message f w = elim (f w.outside) [
  | ok b ↦ (ok b, w)
  | err e ↦ (err (wrap message e), w)
  | panic ↦ (panic, w)
]

-- `Status.AtProvider.BucketName = bucketName` and `SetConditions(Available())`.
unfoldable pub set_observed : String → Bucket → Bucket
set_observed name b = record b {
  status = record (b.status) {
    at_provider = record { bucket_name = name };
    conditions = available ∷ b.status.conditions;
  };
}

module _ {S : Type 0} (s3 : S3 S) where
  -- `bucketPolicyLatestFn`
  unfoldable pub bucket_policy_latest : String → String → S → Result Bool
  bucket_policy_latest name policy s = elim (s3.get_bucket_policy s name) [
    | ok current ↦ ok (current == policy)
    | err e ↦ err e
    | panic ↦ panic
  ]

  -- `bucketTagsLatestFn`
  unfoldable pub bucket_tags_latest : String → GoMap String → S → Result Bool
  bucket_tags_latest name desired s = elim (s3.get_bucket_tagging s name) [
    | ok none ↦ ok (is_nil desired)
    | ok (some current) ↦ ok (map_deep_equal current desired)
    | err e ↦ if (s3.to_error_response e).code == "NoSuchTagSet" then ok (is_nil desired) else err e
    | panic ↦ panic
  ]

  -- Is the policy, and then are the tags as specified? The tags are compared if the policy is.
  unfoldable pub is_latest : Bucket → String → M S Bucket Bool
  unfolding wrapped
  is_latest bucket name = do
    latest ← elim bucket.spec.for_provider.policy [
      | none ↦ pure true
      | some policy ↦
          wrapped "cannot determine whether a bucket policy exists"
            (bucket_policy_latest name policy)
    ]
    elim bucket.spec.for_provider.tags [
      | none ↦ pure latest
      | some tags ↦
          if latest
          then wrapped "cannot determine whether bucket tags are up to date"
              (bucket_tags_latest name tags)
          else pure latest
    ]

  -- `observeBucket`
  unfoldable pub observe_bucket : Bucket → String → Bool → M S Bucket Observation
  unfolding set_observed is_latest is_locked
  observe_bucket bucket name exists =
      if is_locked bucket && exists
      then (do
        modify (set_observed name)
        latest ← is_latest bucket name
        pure (record { resource_exists = true; resource_up_to_date = latest }))
      else if exists
      then fail (errorf ("bucket already exists, try changing bucket name: " <> name))
      else pure no_observation

  -- The text that the error of `BucketExists` is wrapped in.
  unfoldable pub exists_error : Error → Error
  exists_error e =
      let status = (s3.to_error_response e).status_code in
      if nat_eq status 403
      then wrap "permission denied, please check the provider-config" e
      else if nat_eq status 301
      then wrap
          "mismatching endpointURL and zone, or bucket exists already in a different region, try changing bucket name"
          e
      else wrap "cannot determine whether bucket exists" e

  -- `Observe`, on a Bucket.
  unfoldable pub observe : M S Bucket Observation
  unfolding observe_bucket exists_error
  observe = do
    bucket ← get
    let name = get_bucket_name bucket
    exists ← attempt (λ s. s3.bucket_exists s name)
    elim exists [
      | ok b ↦ observe_bucket bucket name b
      | err e ↦ fail (exists_error e)
      | panic ↦ crash
    ]

  unfoldable pub observe_managed : M S Managed Observation
  unfolding narrow observe
  observe_managed = narrow bucket_kind err_not_bucket observe
