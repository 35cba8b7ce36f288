-- ===== src/Bucket/Fleet/Alone.antt =====
-- A fleet of Buckets along its reconciliations.
use provider_minio.Runtime.{err, panic, is_ok, no_observation, ok, World, has_annotation}
use provider_minio.Base.{
  Bool, ◌↔◌, Bool-cases, ℕ, String, ◌≡◌, refl, sym, ap, ◌∙◌, subst, inl, inr, true, false, arith,
}
use provider_minio.Apis.Bucket.{Bucket, get_bucket_name}
use provider_minio.Client.S3.{S3}
use provider_minio.Bucket.Lock.{lock_annotation, set_lock, is_locked, set_lock-is_locked}
use provider_minio.Bucket.Create.{create}
use provider_minio.Bucket.Observe.{observe}
use provider_minio.Bucket.Update.{update}
use provider_minio.Bucket.Ownership.{observe_frame, create_claims_bucket}
use provider_minio.Fleet.{Fleet, Reach, IsMove, IsOwning}
use provider_minio.Fleet.Alone.{owned_alone}
use provider_minio.Bucket.Fleet.{
  handlers, Keeps, Exists, observe-absent, update_same, create-Exists, create-made, update-Exists,
}

module _ {S : Type 0} (s3 : S3 S) where
  -- The bucket of a name is there, as a test.
  abbrev has_bucket : S → String → Bool
  has_bucket s name = elim (s3.bucket_exists s name) [ ok b ↦ b | err _ ↦ false | panic ↦ false ]

  has_bucket_iff : (s : S) (name : String) → (has_bucket s name ≡ true) ↔ Exists s3 s name
  has_bucket_iff s name = ground arith

  same_bucket :
      (b c : Bucket)
      → b.spec ≡ c.spec
      → b.meta ≡ c.meta
      → (get_bucket_name b ≡ get_bucket_name c) × (is_locked b ≡ is_locked c)
  unfolding get_bucket_name is_locked
  same_bucket b c s m = (ground arith, ap (λ t. has_annotation lock_annotation t) m)

  name-set_lock : (b : Bucket) → get_bucket_name (set_lock b) ≡ get_bucket_name b
  unfolding get_bucket_name set_lock
  name-set_lock b = refl

  -- Observe as a step of the fleet.
  observed_same :
      (w : World S Bucket)
      → let w' = (observe s3 w).1 in
        (w'.outside ≡ w.outside)
        × (get_bucket_name w'.resource ≡ get_bucket_name w.resource)
        × (is_locked w'.resource ≡ is_locked w.resource)
  observed_same w =
      let frame = observe_frame s3 w in
      let (names, locks) =
        same_bucket (observe s3 w).1.resource w.resource frame.same_spec frame.same_meta in
      (frame.same_outside, names, locks)

  abbrev Moves : World S Bucket → World S Bucket → Type 0
  Moves w w' = IsMove is_locked get_bucket_name has_bucket w w'

  look-IsMove : (w : World S Bucket) → Moves w (observe s3 w).1
  look-IsMove w =
      let (outside, name, lock) = observed_same w in
      record {
        same_name = name;
        keeps = λ n e. ap (λ s. has_bucket s n) outside ∙ e;
        claims = λ own. inl (sym lock ∙ own);
      }

  module _ (law : Keeps s3) where
    change-IsMove : (w : World S Bucket) → Moves w (update s3 (observe s3 w).1).1
    change-IsMove w =
        let seen = (observe s3 w).1 in
        let (outside, name, lock) = observed_same w in
        let kept = update_same s3 seen in
        record {
          same_name = ap get_bucket_name kept ∙ name;
          keeps = λ n e. (has_bucket_iff _ n).1 (
              update-Exists s3 law seen n
                (subst (λ t. Exists s3 t n) (sym outside) ((has_bucket_iff _ n).0 e)));
          claims = λ own. inl (sym lock ∙ (sym (ap is_locked kept) ∙ own));
        }

    make-IsMove :
        (w : World S Bucket)
        → (observe s3 w).0 ≡ ok no_observation
        → Moves w (create s3 (observe s3 w).1).1
    make-IsMove w absent =
        let seen = (observe s3 w).1 in
        let (outside, name, lock) = observed_same w in
        let claims = create_claims_bucket s3 seen in
        let locked = set_lock-is_locked seen.resource in
        record {
          same_name = ground (arith, claims, name-set_lock seen.resource, name);
          keeps = λ n e. (has_bucket_iff _ n).1 (
              create-Exists s3 law seen n
                (subst (λ t. Exists s3 t n) (sym outside) ((has_bucket_iff _ n).0 e)));
          claims = λ own. elim (Bool-cases (is_ok (create s3 seen).0)) [
            | inl made ↦ inr (
              ground (arith, observe-absent s3 w absent),
              (has_bucket_iff _ _).1 (
                  subst (λ n. Exists s3 (create s3 seen).1.outside n) name
                    (create-made s3 law seen made)),
            )
            | inr failed ↦ inl (ground (arith, claims, lock))
          ];
        }

    owning : IsOwning (handlers s3)
    owning = record {
      is_own = is_locked;
      name = get_bucket_name;
      has = has_bucket;
      looks = look-IsMove;
      makes = make-IsMove;
      changes = λ w stale. change-IsMove w;
    }

    -- Whatever reconciliations follow each other, each of one object and as the reconciler makes them,
    -- and as long as no bucket is removed: from a fleet in which no object holds a lock, no fleet is
    -- reached in which two objects with the lock have the same bucket.
    pub one_owner :
        {f g : Fleet S Bucket} (i j : ℕ)
        → ((k : ℕ) → is_locked (f.objects k) ≡ false)
        → Reach (handlers s3) f g
        → is_locked (g.objects i) ≡ true
        → is_locked (g.objects j) ≡ true
        → get_bucket_name (g.objects i) ≡ get_bucket_name (g.objects j)
        → i ≡ j
    unfolding owning
    one_owner = owned_alone (handlers s3) owning
