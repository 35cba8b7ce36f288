-- ===== src/Bucket/Lock.antt =====
-- The annotation by which a Bucket owns its bucket (operator/bucket/connector.go and create.go).
use provider_minio.Base.GoMap.{insert, has_key-insert, entries}
use provider_minio.Runtime.{Error, errorf, has_annotation}
use provider_minio.Base.{String, ◌≡◌, Bool, true, some}
use provider_minio.Apis.Bucket.{Bucket}

abbrev pub lock_annotation : String
lock_annotation = "minio.m.crossplane.io/lock"

abbrev pub err_not_bucket : Error
err_not_bucket = errorf "managed resource is not a bucket"

-- `setLock`: a nil map is made first.
unfoldable pub set_lock : Bucket → Bucket
set_lock b = record b {
  meta = record (b.meta) {
    annotations = some (insert lock_annotation "claimed" (entries b.meta.annotations));
  };
}

unfoldable pub is_locked : Bucket → Bool
unfolding has_annotation
is_locked b = has_annotation lock_annotation b.meta

pub set_lock-is_locked : (b : Bucket) → is_locked (set_lock b) ≡ true
unfolding set_lock is_locked entries
set_lock-is_locked b = has_key-insert _ _ _
