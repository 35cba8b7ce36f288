-- ===== src/Reconcile/Arrival.antt =====
-- From a Bucket that MinIO does not have to one that stays as it is specified.
use provider_minio.Runtime.{is_ok, Result, ok, err, panic, World}
use provider_minio.Base.{◌≡◌, refl, ap, ◌∙◌, true, arith}
use provider_minio.Apis.Bucket.{Bucket}
use provider_minio.Apis.Managed.{Managed, narrow, bucket}
use provider_minio.Client.S3.{S3}
use provider_minio.Bucket
use provider_minio.Bucket.Convergence.{IsLawful, policy_is_canonical, bucket_create-observe}
use provider_minio.Bucket.Ownership.{observe_frame}
use provider_minio.Bucket.Fleet.{Keeps, create-made}
use provider_minio.Reconcile.Client.{bucket_client}
use provider_minio.Reconcile.Rounds.{settled, Rounds, created_by}
use provider_minio.Reconcile.Settled.{bucket_client-StaysSettled}

-- The reconciler's world of a Bucket.
abbrev pub lift : {S : Type 0} → World S Bucket → World S Managed
lift w = record { outside = w.outside; events = w.events; resource = bucket w.resource }

pub success-ok : {A : Type 0} (r : Result A) → is_ok r ≡ true → (a : A) × (r ≡ ok a)
success-ok (ok a) h = (a, refl)
success-ok (err e) h = absurd (ground arith)
success-ok panic h = absurd (ground arith)

module _ {S : Type 0} (s3 : S3 S) (law : IsLawful s3) (keeps : Keeps s3) where
  -- What Observe finds after an Observe and a Create with success.
  created_settled :
      (w : World S Bucket)
      → let seen = (Bucket.Observe.observe s3 w).1 in
        is_ok (Bucket.Create.create s3 seen).0 ≡ true
        → policy_is_canonical s3 law w.resource.spec ≡ true
        → (Bucket.Observe.observe s3 (Bucket.Create.create s3 seen).1).0 ≡ ok settled
  created_settled w success canonical =
      let seen = (Bucket.Observe.observe s3 w).1 in
      let (n, made) = success-ok (Bucket.Create.create s3 seen).0 success in
      let frame = observe_frame s3 w in
      bucket_create-observe s3 law seen made (create-made s3 keeps seen success)
      ∙ ground (arith, ap (policy_is_canonical s3 law) frame.same_spec)

  -- A round that creates a bucket with success, over a server that reads back what was written, where
  -- the specified policy is in the form in which the server returns it, is the last one that changes
  -- anything: Observe finds the Bucket up to date after it and after any rounds that follow.
  pub creation_settles :
      (w : World S Bucket) {w' : World S Managed}
      → is_ok (created_by (bucket_client s3) (lift w)).0 ≡ true
      → policy_is_canonical s3 law w.resource.spec ≡ true
      → Rounds (bucket_client s3) (created_by (bucket_client s3) (lift w)).1 w'
      → (w'.outside ≡ (created_by (bucket_client s3) (lift w)).1.outside)
        × (w'.events ≡ (created_by (bucket_client s3) (lift w)).1.events)
        × (((bucket_client s3).observe w').0 ≡ ok settled)
  unfolding bucket_client narrow
  creation_settles w {w'} success canonical rounds =
      bucket_client-StaysSettled s3 (created_by (bucket_client s3) (lift w)).1 w' refl
        (created_settled w success canonical) rounds
