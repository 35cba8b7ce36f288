-- ===== src/Bucket/Fleet/Successor.antt =====
-- A Bucket that was deleted, and an object that makes the bucket again before the deleted one is gone.
use provider_minio.Runtime.{is_ok, Observation, ok, World}
use provider_minio.Base.{◌≡◌, sym, ap, ◌∙◌, subst, true}
use provider_minio.Apis.Bucket.{Bucket, get_bucket_name}
use provider_minio.Client.S3.{S3}
use provider_minio.Bucket.Lock.{is_locked}
use provider_minio.Bucket.Create.{create}
use provider_minio.Bucket.Observe.{observe}
use provider_minio.Bucket.Delete.{delete}
use provider_minio.Bucket.Deletion.{delete_event, observe_names_bucket}
use provider_minio.Bucket.Ownership.{bucket_exists_iff}
use provider_minio.Bucket.Fleet.{Keeps, Exists, create-made}

module _ {S : Type 0} (s3 : S3 S) (law : Keeps s3) where
  -- A Delete leaves the lock on the object. Where another object then makes a bucket of the same
  -- name, an Observe of the deleted object that returns an observation reports this bucket as its
  -- own, and puts its name where Delete reads it.
  pub deleted-finds_successor :
      (w : World S Bucket) (successor : Bucket) {o : Observation}
      → let deleted = (delete s3 w).1 in
        let made = create s3 (record deleted { resource = successor }) in
        let observed = observe s3 (record (made.1) { resource = deleted.resource }) in
        is_locked w.resource ≡ true
        → get_bucket_name successor ≡ get_bucket_name w.resource
        → is_ok made.0 ≡ true
        → observed.0 ≡ ok o
        → (o.resource_exists ≡ true)
          × (observed.1.resource.status.at_provider.bucket_name ≡ get_bucket_name successor)
  deleted-finds_successor w successor lock same success h =
      let deleted = (delete s3 w).1 in
      let kept = (delete_event s3 w).1 in
      let w₁ : World S Bucket = record deleted { resource = successor } in
      let made = (create s3 w₁).1 in
      let w₂ : World S Bucket = record made { resource = deleted.resource } in
      let name : get_bucket_name deleted.resource ≡ get_bucket_name successor =
        ap get_bucket_name kept ∙ sym same in
      let there = subst (Exists s3 made.outside) (sym name) (create-made s3 law w₁ success) in
      let exists = (bucket_exists_iff s3 w₂ h).1 (there, ap is_locked kept ∙ lock) in
      (exists, observe_names_bucket s3 w₂ h exists ∙ name)
