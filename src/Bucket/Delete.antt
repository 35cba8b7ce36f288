-- ===== src/Bucket/Delete.antt =====
-- operator/bucket/delete.go. The goroutine that lists the objects feeds the removal through a
-- channel: here the listing is read whole first, without the entries that carry an error.
use provider_minio.Runtime.{
  wrap, error_text, Result, ok, err, panic, M, pure, fail, crash, ◌>>=◌, ◌>>◌, when, attempt, call,
  get, emit,
}
use provider_minio.Base.{
  if◌then◌else◌, ◌==◌, is_some, keep, String, ◌<>◌, Bool, false, not, none, some, List,
}
use provider_minio.Apis.Bucket.{Bucket, delete_all}
use provider_minio.Apis.Managed.{Managed, narrow, bucket_kind}
use provider_minio.Client.S3.{S3, ObjectInfo}
use provider_minio.Bucket.Lock.{err_not_bucket}

-- `hasDeleteAllPolicy`
unfoldable pub has_delete_all_policy : Bucket → Bool
has_delete_all_policy b = b.spec.for_provider.bucket_deletion_policy == delete_all

-- `%q` of a name in which nothing has to be escaped.
abbrev pub quoted : String → String
quoted s = "\"" <> s <> "\""

module _ {S : Type 0} (s3 : S3 S) where
  -- `isBucketLockEnabled`: the one error that says that there is no configuration means no.
  unfoldable pub is_bucket_lock_enabled : String → S → Result Bool
  is_bucket_lock_enabled name s = elim (s3.get_object_lock_config s name) [
    | ok mode ↦ ok (is_some mode)
    | err e ↦
        if error_text e == "Object Lock configuration does not exist for this bucket"
        then ok false
        else err e
    | panic ↦ panic
  ]

  -- The objects that the goroutine sends.
  unfoldable pub listed_objects : String → S → List ObjectInfo
  listed_objects name s = keep (λ o. not (is_some o.err)) (s3.list_objects s name)

  -- `deleteAllObjects`. An error of the lock configuration is logged, and counts as no lock.
  unfoldable pub delete_all_objects : Bucket → M S Bucket (Unit {0})
  unfolding is_bucket_lock_enabled listed_objects
  delete_all_objects bucket = do
    let name = bucket.status.at_provider.bucket_name
    objects ← (λ w. (ok (listed_objects name w.outside), w))
    lock ← attempt (is_bucket_lock_enabled name)
    bypass ← elim lock [ ok b ↦ pure b | err _ ↦ pure false | panic ↦ crash ]
    removed ← (λ w.
        let (r, s) = s3.remove_objects w.outside name objects bypass in
        (ok r, record w { outside = s }))
    elim removed [
      | none ↦ pure tt
      | some o ↦ fail (wrap ("object " <> quoted o.object_name <> " cannot be removed") o.err)
    ]

  -- `deleteS3Bucket`
  unfoldable pub delete_s3_bucket : Bucket → M S Bucket (Unit {0})
  delete_s3_bucket bucket = call (λ s. s3.remove_bucket s bucket.status.at_provider.bucket_name)

  -- `Delete`, on a Bucket.
  unfoldable pub delete : M S Bucket (Unit {0})
  unfolding has_delete_all_policy delete_all_objects delete_s3_bucket
  delete = do
    bucket ← get
    when (has_delete_all_policy bucket) (delete_all_objects bucket)
    delete_s3_bucket bucket
    emit "Deleted" "Bucket deleted"

  unfoldable pub delete_managed : M S Managed (Unit {0})
  unfolding narrow delete
  delete_managed = narrow bucket_kind err_not_bucket delete
