-- ===== src/Bucket/Fleet.antt =====
-- The handlers of Buckets in a fleet of them, and what they leave in MinIO.
pub mod Alone
pub mod Successor
use provider_minio.Base.GoMap.{GoMap}
use provider_minio.Runtime.{is_ok, no_observation, ok, World}
use provider_minio.Base.{String, ◌≡◌, ◌≢◌, true, arith}
use provider_minio.Apis.Bucket.{Bucket, get_bucket_name}
use provider_minio.Fleet.{Handlers}
use provider_minio.Client.S3.{S3}
use provider_minio.Bucket.Create.{create, create_s3_bucket, create_policy, create_tags}
use provider_minio.Bucket.Observe.{observe}
use provider_minio.Bucket.Update.{update, update_tags}

abbrev pub handlers : {S : Type 0} → S3 S → Handlers S Bucket
handlers s3 = record { observe = observe s3; create = create s3; update = update s3 }

module _ {S : Type 0} (s3 : S3 S) where
  -- What is relied on: a bucket that was made exists, and an existing one stays where buckets are made
  -- and policies and tags are written.
  pub record Keeps : Type 0 where
    pub made :
        (s : S) (name region : String)
        → (s3.make_bucket s name region).0 ≡ ok tt
        → s3.bucket_exists (s3.make_bucket s name region).1 name ≡ ok true
    pub after_make :
        (s : S) (name other region : String)
        → s3.bucket_exists s name ≡ ok true
        → s3.bucket_exists (s3.make_bucket s other region).1 name ≡ ok true
    pub after_policy :
        (s : S) (name other policy : String)
        → s3.bucket_exists s name ≡ ok true
        → s3.bucket_exists (s3.set_bucket_policy s other policy).1 name ≡ ok true
    pub after_tagging :
        (s : S) (name other : String) (tags : GoMap String)
        → s3.bucket_exists s name ≡ ok true
        → s3.bucket_exists (s3.set_bucket_tagging s other tags).1 name ≡ ok true
    pub after_untagging :
        (s : S) (name other : String)
        → s3.bucket_exists s name ≡ ok true
        → s3.bucket_exists (s3.remove_bucket_tagging s other).1 name ≡ ok true

  -- The bucket of a name is there.
  abbrev pub Exists : S → String → Type 0
  Exists s name = s3.bucket_exists s name ≡ ok true

  observe-absent :
      (w : World S Bucket)
      → (observe s3 w).0 ≡ ok no_observation
      → s3.bucket_exists w.outside (get_bucket_name w.resource) ≢ ok true
  unfolding observe
  observe-absent w h e = ground arith

  update_same : (w : World S Bucket) → (update s3 w).1.resource ≡ w.resource
  unfolding update
  update_same w = ground arith

  module _ (law : Keeps) where
    policy-Exists :
        (b : Bucket) (w : World S Bucket) (name : String)
        → Exists w.outside name
        → Exists (create_policy s3 b w).1.outside name
    unfolding create_policy
    policy-Exists b w name e = grind (arith, law.after_policy)

    tags-Exists :
        (b : Bucket) (w : World S Bucket) (name : String)
        → Exists w.outside name
        → Exists (create_tags s3 b w).1.outside name
    unfolding create_tags
    tags-Exists b w name e = grind (arith, law.after_tagging)

    update_tags-Exists :
        (b : Bucket) (w : World S Bucket) (name : String)
        → Exists w.outside name
        → Exists (update_tags s3 b w).1.outside name
    unfolding update_tags
    update_tags-Exists b w name e = grind (arith, law.after_tagging, law.after_untagging)

    make-Exists :
        (w : World S Bucket) (name : String)
        → Exists w.outside name
        → Exists (create_s3_bucket s3 w).1.outside name
    unfolding create_s3_bucket
    make-Exists w name e = grind (arith, law.after_make)

    make-made :
        (w : World S Bucket)
        → (create_s3_bucket s3 w).0 ≡ ok tt
        → Exists (create_s3_bucket s3 w).1.outside (get_bucket_name w.resource)
    unfolding create_s3_bucket
    make-made w h =
        ground (
          arith,
          law.made w.outside (get_bucket_name w.resource) w.resource.spec.for_provider.region,
        )

    create-Exists :
        (w : World S Bucket) (name : String)
        → Exists w.outside name
        → Exists (create s3 w).1.outside name
    unfolding create
    create-Exists w name e =
        let w₁ = (create_s3_bucket s3 w).1 in
        let w₂ = (create_policy s3 w.resource w₁).1 in
        ground (
          arith,
          make-Exists w name,
          policy-Exists w.resource w₁ name,
          tags-Exists w.resource w₂ name,
        )

    pub create-made :
        (w : World S Bucket)
        → is_ok (create s3 w).0 ≡ true
        → Exists (create s3 w).1.outside (get_bucket_name w.resource)
    unfolding create
    create-made w h =
        let name = get_bucket_name w.resource in
        let w₁ = (create_s3_bucket s3 w).1 in
        let w₂ = (create_policy s3 w.resource w₁).1 in
        ground
          (arith, make-made w, policy-Exists w.resource w₁ name, tags-Exists w.resource w₂ name)

    update-Exists :
        (w : World S Bucket) (name : String)
        → Exists w.outside name
        → Exists (update s3 w).1.outside name
    unfolding update
    update-Exists w name e =
        let w₁ = (create_policy s3 w.resource w).1 in
        ground (arith, policy-Exists w.resource w name, update_tags-Exists w.resource w₁ name)
