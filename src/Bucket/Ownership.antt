-- ===== src/Bucket/Ownership.antt =====
-- Who owns a bucket: what Observe takes for its own, and what Create claims.
use provider_minio.Runtime.{
  is_ok, Error, errorf, Observation, no_creation, ok, err, World, Result-cases,
}
use provider_minio.Base.{
  if◌then◌else◌, String, ◌<>◌, ◌≡◌, refl, ap, ◌∙◌, ◌≢◌, ◌↔◌, ◌⊎◌, inl, inr, Bool, true, false, none,
  arith,
}
use provider_minio.Apis.Bucket.{Bucket, get_bucket_name}
use provider_minio.Client.S3.{S3}
use provider_minio.Bucket.Lock.{set_lock-is_locked, is_locked, set_lock}
use provider_minio.Bucket.Create.{create}
use provider_minio.Bucket.Observe.{observe, is_latest}

-- The error of an Observe that finds a bucket which the Bucket has not claimed.
abbrev pub taken_error : Bucket → Error
taken_error b = errorf ("bucket already exists, try changing bucket name: " <> get_bucket_name b)

module _ {S : Type 0} (s3 : S3 S) where
  -- Only the status of the Bucket may be changed.
  pub record IsReadOnly (w w' : World S Bucket) : Type 0 where
    pub same_outside : w'.outside ≡ w.outside
    pub same_events : w'.events ≡ w.events
    pub same_spec : w'.resource.spec ≡ w.resource.spec
    pub same_meta : w'.resource.meta ≡ w.resource.meta

  is_latest_frame :
      (b : Bucket) (name : String) (w : World S Bucket) → (is_latest s3 b name w).1 ≡ w
  unfolding is_latest
  is_latest_frame b name w = ground arith

  -- Observe changes neither MinIO nor the cluster, emits no event, and leaves the specification and
  -- the metadata of the Bucket as they are, whatever it returns.
  pub observe_frame : (w : World S Bucket) → IsReadOnly w (observe s3 w).1
  unfolding observe
  observe_frame w = ground arith

  -- Where Observe returns an observation, it reports the bucket as existing exactly when MinIO has
  -- it and the Bucket holds the lock annotation.
  pub bucket_exists_iff :
      (w : World S Bucket) {o : Observation}
      → (observe s3 w).0 ≡ ok o
      → (o.resource_exists ≡ true) ↔ (
          (s3.bucket_exists w.outside (get_bucket_name w.resource) ≡ ok true)
          × (is_locked w.resource ≡ true))
  unfolding observe
  bucket_exists_iff w h = ground arith

  -- Create claims the Bucket where it succeeds, and leaves it untouched where it
  -- fails or panics.
  pub create_claims_bucket :
      (w : World S Bucket)
      → let (r, w') = create s3 w in
        w'.resource ≡ (if is_ok r then set_lock w.resource else w.resource)
  unfolding create
  create_claims_bucket w = ground arith

  -- A bucket that exists is never taken over by a Bucket without the lock.
  observe_refuses :
      (w : World S Bucket)
      → is_locked w.resource ≡ false
      → s3.bucket_exists w.outside (get_bucket_name w.resource) ≡ ok true
      → (observe s3 w).0 ≡ err (taken_error w.resource)
  unfolding observe
  observe_refuses w u h = ground arith

  -- Where Create fails on a Bucket that holds no lock, no later Observe takes a bucket of that name
  -- for its own, in any state of the outside world: it never reports the bucket as existing, and
  -- either MinIO does not say that the bucket exists, or Observe fails and asks for another name.
  pub create_failed-observe :
      (w : World S Bucket) (later : S) (latest : Bool) {e : Error}
      → is_locked w.resource ≡ false
      → (create s3 w).0 ≡ err e
      → let w' = record ((create s3 w).1) { outside = later } in
        ((observe s3 w').0 ≢ ok (record { resource_exists = true; resource_up_to_date = latest }))
        × ((s3.bucket_exists later (get_bucket_name w.resource) ≢ ok true)
            ⊎ ((observe s3 w').0 ≡ err (taken_error w.resource)))
  create_failed-observe w later latest unlocked failed =
      let kept : (create s3 w).1.resource ≡ w.resource = create_claims_bucket w ∙ (cc) in
      let w' : World S Bucket = record ((create s3 w).1) { outside = later } in
      let free : is_locked w'.resource ≡ false = ap is_locked kept ∙ unlocked in
      (
        λ h. ground (arith, free, (bucket_exists_iff w' h).0 refl),
        elim (Result-cases (s3.bucket_exists later (get_bucket_name w.resource))) [
          | inl (true, x) ↦ inr (
              observe_refuses w' free
                (ap (λ b. s3.bucket_exists later (get_bucket_name b)) kept ∙ x)
              ∙ ap (λ b. err (taken_error b)) kept)
          | inl (false, x) ↦ inl (λ h. ground arith)
          | inr (inl (f, x)) ↦ inl (λ h. ground arith)
          | inr (inr x) ↦ inl (λ h. ground arith)
        ],
      )

  -- Where MakeBucket fails, MinIO has the bucket after it, and neither policy nor tags are specified,
  -- Create returns no error and sets the lock, whoever has made the bucket.
  pub create_adopts :
      (w : World S Bucket) {e : Error}
      → let made =
          s3.make_bucket w.outside
            (get_bucket_name w.resource)
            w.resource.spec.for_provider.region in
        made.0 ≡ err e
        → s3.bucket_exists made.1 (get_bucket_name w.resource) ≡ ok true
        → w.resource.spec.for_provider.policy ≡ none
        → w.resource.spec.for_provider.tags ≡ none
        → ((create s3 w).0 ≡ ok no_creation) × (is_locked (create s3 w).1.resource ≡ true)
  unfolding create
  create_adopts w m x p t = (ground arith, ground (arith, set_lock-is_locked w.resource))
