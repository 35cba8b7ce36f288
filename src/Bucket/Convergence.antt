-- ===== src/Bucket/Convergence.antt =====
-- Create and Update against what Observe finds afterwards, over a server that reads back what was
-- written.
use provider_minio.Base.GoMap.{GoMap, map_deep_equal, is_nil-same}
use provider_minio.Runtime.{Error, Observation, Creation, ok, err, World}
use provider_minio.Base.{
  ◌==◌, Option-cases, is_nil, String, ◌≡◌, ap, ◌∙◌, ◌⊎◌, inl, inr, Bool, true, none, some, arith,
  eq_iff,
}
use provider_minio.Apis.Bucket.{Bucket, BucketSpec, get_bucket_name}
use provider_minio.Client.S3.{S3}
use provider_minio.Bucket.Lock.{is_locked, set_lock, set_lock-is_locked}
use provider_minio.Bucket.Create.{create, create_s3_bucket, create_policy, create_tags}
use provider_minio.Bucket.Ownership.{create_claims_bucket}
use provider_minio.Bucket.Update.{update, update_tags}
use provider_minio.Bucket.Observe.{
  observe, is_latest, set_observed, bucket_policy_latest, bucket_tags_latest,
}

-- The bucket has no tags: they read as nil, or as the error that says so.
abbrev pub HasNoTags : {S : Type 0} → S3 S → String → S → Type 0
HasNoTags s3 name s =
    (s3.get_bucket_tagging s name ≡ ok none)
    ⊎ ((e : Error) × (s3.get_bucket_tagging s name ≡ err e)
        × ((s3.to_error_response e).code ≡ "NoSuchTagSet"))

-- What is relied on: a policy is read back in the form that the server gives it, tags are read back
-- as they were set, no tags read as an empty set or as the error NoSuchTagSet, and writing tags
-- does not touch the policy. `NewTags` keeps the map that it is given.
pub record IsLawful {S : Type 0} (s3 : S3 S) : Type 0 where
  pub canonical : String → String
  pub policy_written :
      (s : S) (name policy : String)
      → (s3.set_bucket_policy s name policy).0 ≡ ok tt
      → s3.get_bucket_policy (s3.set_bucket_policy s name policy).1 name ≡ ok (canonical policy)
  pub tags_written :
      (s : S) (name : String) (tags : GoMap String)
      → (s3.set_bucket_tagging s name tags).0 ≡ ok tt
      → let s' = (s3.set_bucket_tagging s name tags).1 in
        (s3.get_bucket_tagging s' name ≡ ok (some tags))
        ⊎ ((is_nil tags ≡ true) × HasNoTags s3 name s')
  pub tags_removed :
      (s : S) (name : String)
      → (s3.remove_bucket_tagging s name).0 ≡ ok tt
      → HasNoTags s3 name (s3.remove_bucket_tagging s name).1
  pub policy_after_tagging :
      (s : S) (name : String) (tags : GoMap String)
      → s3.get_bucket_policy (s3.set_bucket_tagging s name tags).1 name
        ≡ s3.get_bucket_policy s name
  pub policy_after_untagging :
      (s : S) (name : String)
      → s3.get_bucket_policy (s3.remove_bucket_tagging s name).1 name ≡ s3.get_bucket_policy s name
  pub new_tags_same :
      (tags : GoMap String) {t : GoMap String}
      → s3.new_tags tags ≡ ok t
      → map_deep_equal t tags ≡ true

abbrev pub observed : Bool → Observation
observed latest = record { resource_exists = true; resource_up_to_date = latest }

module _ {S : Type 0} (s3 : S3 S) (law : IsLawful s3) where
  -- Is the specified policy, if there is one, in the form in which the server returns it?
  abbrev pub policy_is_canonical : BucketSpec → Bool
  policy_is_canonical spec = elim spec.for_provider.policy [
    | none ↦ true
    | some policy ↦ law.canonical policy == policy
  ]

  -- The tags of the specification are those that MinIO has.
  abbrev HasTags : Bucket → S → Type 0
  HasTags b s =
      (tags : GoMap String)
      → b.spec.for_provider.tags ≡ some tags
      → bucket_tags_latest s3 (get_bucket_name b) tags s ≡ ok true

  -- The policy of the specification, as the server writes it, is the one that MinIO has.
  abbrev HasPolicy : Bucket → S → Type 0
  HasPolicy b s =
      (policy : String)
      → b.spec.for_provider.policy ≡ some policy
      → s3.get_bucket_policy s (get_bucket_name b) ≡ ok (law.canonical policy)

  no_tags :
      (s : S) (name : String) (tags : GoMap String)
      → is_nil tags ≡ true
      → HasNoTags s3 name s
      → bucket_tags_latest s3 name tags s ≡ ok true
  unfolding bucket_tags_latest
  no_tags s name tags n (inl r) = ground arith
  no_tags s name tags n (inr (e, r, c)) =
      ground (arith, eq_iff (s3.to_error_response e).code "NoSuchTagSet")

  same_tags :
      (s : S) (name : String) (tags t : GoMap String)
      → map_deep_equal t tags ≡ true
      → s3.get_bucket_tagging s name ≡ ok (some t)
      → bucket_tags_latest s3 name tags s ≡ ok true
  unfolding bucket_tags_latest
  same_tags s name tags t same r = ground arith

  tags_set :
      (s : S) (name : String) (tags t : GoMap String)
      → s3.new_tags tags ≡ ok t
      → (s3.set_bucket_tagging s name t).0 ≡ ok tt
      → bucket_tags_latest s3 name tags (s3.set_bucket_tagging s name t).1 ≡ ok true
  tags_set s name tags t e h = go (law.tags_written s name t h)
    where
      same : map_deep_equal t tags ≡ true
      same = law.new_tags_same tags e

      go :
          (s3.get_bucket_tagging (s3.set_bucket_tagging s name t).1 name ≡ ok (some t))
            ⊎ ((is_nil t ≡ true) × HasNoTags s3 name (s3.set_bucket_tagging s name t).1)
          → bucket_tags_latest s3 name tags (s3.set_bucket_tagging s name t).1 ≡ ok true
      go (inl r) = same_tags _ name tags t same r
      go (inr (n, r)) = no_tags _ name tags (is_nil-same t tags n same) r

  tags_unset :
      (s : S) (name : String) (tags : GoMap String)
      → is_nil tags ≡ true
      → (s3.remove_bucket_tagging s name).0 ≡ ok tt
      → bucket_tags_latest s3 name tags (s3.remove_bucket_tagging s name).1 ≡ ok true
  tags_unset s name tags n h = no_tags _ name tags n (law.tags_removed s name h)

  create_policy_step :
      (b : Bucket) (w : World S Bucket) (policy : String)
      → b.spec.for_provider.policy ≡ some policy
      → (create_policy s3 b w).0 ≡ ok tt
      → s3.get_bucket_policy (create_policy s3 b w).1.outside (get_bucket_name b)
        ≡ ok (law.canonical policy)
  unfolding create_policy
  create_policy_step b w policy e h =
      ground (arith, law.policy_written w.outside (get_bucket_name b) policy)

  create_tags_step :
      (b : Bucket) (w : World S Bucket) (tags : GoMap String)
      → b.spec.for_provider.tags ≡ some tags
      → (create_tags s3 b w).0 ≡ ok tt
      → bucket_tags_latest s3 (get_bucket_name b) tags (create_tags s3 b w).1.outside ≡ ok true
  unfolding create_tags
  create_tags_step b w tags e h = grind (arith, tags_set)

  create_tags_frame :
      (b : Bucket) (w : World S Bucket)
      → s3.get_bucket_policy (create_tags s3 b w).1.outside (get_bucket_name b)
        ≡ s3.get_bucket_policy w.outside (get_bucket_name b)
  unfolding create_tags
  create_tags_frame b w = grind (arith, law.policy_after_tagging)

  update_tags_step :
      (b : Bucket) (w : World S Bucket) (tags : GoMap String)
      → b.spec.for_provider.tags ≡ some tags
      → (update_tags s3 b w).0 ≡ ok tt
      → bucket_tags_latest s3 (get_bucket_name b) tags (update_tags s3 b w).1.outside ≡ ok true
  unfolding update_tags
  update_tags_step b w tags e h = grind (arith, tags_set, tags_unset)

  update_tags_frame :
      (b : Bucket) (w : World S Bucket)
      → s3.get_bucket_policy (update_tags s3 b w).1.outside (get_bucket_name b)
        ≡ s3.get_bucket_policy w.outside (get_bucket_name b)
  unfolding update_tags
  update_tags_frame b w = grind (arith, law.policy_after_tagging, law.policy_after_untagging)

  -- With both in place, Observe's comparison gives the form of the policy text.
  is_latest_written :
      (b : Bucket) (w : World S Bucket)
      → HasPolicy b w.outside
      → HasTags b w.outside
      → (is_latest s3 b (get_bucket_name b) w).0 ≡ ok (policy_is_canonical b.spec)
  unfolding is_latest bucket_policy_latest
  is_latest_written b w p t = elim (Option-cases b.spec.for_provider.policy) [
    | inl np ↦ elim (Option-cases b.spec.for_provider.tags) [
      | inl nt ↦ ground arith
      | inr (tags, et) ↦ ground (arith, t tags et)
    ]
    | inr (policy, ep) ↦ elim (Option-cases b.spec.for_provider.tags) [
      | inl nt ↦ ground (arith, p policy ep)
      | inr (tags, et) ↦ ground (arith, p policy ep, t tags et)
    ]
  ]

  update_written :
      (w : World S Bucket)
      → (update s3 w).0 ≡ ok tt
      → HasPolicy w.resource (update s3 w).1.outside × HasTags w.resource (update s3 w).1.outside
  unfolding update
  update_written w h =
      let w' = (create_policy s3 w.resource w).1 in
      (
        λ policy e.
            ground
              (arith, create_policy_step w.resource w policy e, update_tags_frame w.resource w'),
        λ tags e. ground (arith, update_tags_step w.resource w' tags e),
      )

  create_written :
      (w : World S Bucket) {c : Creation}
      → (create s3 w).0 ≡ ok c
      → HasPolicy w.resource (create s3 w).1.outside × HasTags w.resource (create s3 w).1.outside
  unfolding create
  create_written w h =
      let w₁ = (create_s3_bucket s3 w).1 in
      let w₂ = (create_policy s3 w.resource w₁).1 in
      (
        λ policy e.
            ground
              (arith, create_policy_step w.resource w₁ policy e, create_tags_frame w.resource w₂),
        λ tags e. ground (arith, create_tags_step w.resource w₂ tags e),
      )

  -- Observe of a Bucket that holds the lock, in a state that has what the Bucket asks for.
  observe_written :
      (w : World S Bucket)
      → is_locked w.resource ≡ true
      → s3.bucket_exists w.outside (get_bucket_name w.resource) ≡ ok true
      → HasPolicy w.resource w.outside
      → HasTags w.resource w.outside
      → (observe s3 w).0 ≡ ok (observed (policy_is_canonical w.resource.spec))
  unfolding observe
  observe_written w locked exists p t =
      let seen : World S Bucket = record w {
        resource = set_observed (get_bucket_name w.resource) w.resource;
      } in
      ground (arith, is_latest_written w.resource seen p t)

  -- The same for a Bucket that stands in for another one of the same name and specification.
  observe_written_for :
      (b : Bucket) (w : World S Bucket)
      → (get_bucket_name w.resource ≡ get_bucket_name b) × (w.resource.spec ≡ b.spec)
      → is_locked w.resource ≡ true
      → s3.bucket_exists w.outside (get_bucket_name b) ≡ ok true
      → HasPolicy b w.outside × HasTags b w.outside
      → (observe s3 w).0 ≡ ok (observed (policy_is_canonical b.spec))
  observe_written_for b w (same_name, same_spec) locked exists (p, t) =
      observe_written w locked (ap (s3.bucket_exists w.outside) same_name ∙ exists)
        (λ policy e. rw same_name (p policy (cc))) (λ tags e. rw same_name (t tags (cc)))
      ∙ ap (λ (spec : BucketSpec). ok (observed (policy_is_canonical spec))) same_spec

  update_frame : (w : World S Bucket) → (update s3 w).1.resource ≡ w.resource
  unfolding update
  update_frame w = ground arith

  create_frame :
      (w : World S Bucket) {c : Creation}
      → (create s3 w).0 ≡ ok c
      → (create s3 w).1.resource ≡ set_lock w.resource
  create_frame w h = create_claims_bucket s3 w ∙ (cc)

  -- After a successful Update of a Bucket that holds the lock, as long as MinIO has the bucket,
  -- Observe finds it, and up to date exactly when the specified policy is in the form in which the
  -- server returns it; the tags are up to date also where the map is empty.
  pub bucket_update-observe :
      (w : World S Bucket)
      → is_locked w.resource ≡ true
      → (update s3 w).0 ≡ ok tt
      → s3.bucket_exists (update s3 w).1.outside (get_bucket_name w.resource) ≡ ok true
      → (observe s3 (update s3 w).1).0 ≡ ok (observed (policy_is_canonical w.resource.spec))
  bucket_update-observe w locked h exists =
      let same = update_frame w in
      observe_written_for w.resource (update s3 w).1
        (ap get_bucket_name same, ap (λ (b : Bucket). b.spec) same) (ap is_locked same ∙ locked)
        exists (update_written w h)

  -- After a successful Create, as long as MinIO has the bucket, Observe finds it, and up to date
  -- exactly when the specified policy is in the form in which the server returns it.
  pub bucket_create-observe :
      (w : World S Bucket) {c : Creation}
      → (create s3 w).0 ≡ ok c
      → s3.bucket_exists (create s3 w).1.outside (get_bucket_name w.resource) ≡ ok true
      → (observe s3 (create s3 w).1).0 ≡ ok (observed (policy_is_canonical w.resource.spec))
  unfolding set_lock get_bucket_name
  bucket_create-observe w h exists =
      let same = create_frame w h in
      observe_written_for w.resource (create s3 w).1
        (ap get_bucket_name same, ap (λ (b : Bucket). b.spec) same)
        (ap is_locked same ∙ set_lock-is_locked w.resource) exists (create_written w h)
