-- ===== src/Bucket/Deletion.antt =====
-- What Delete does to MinIO, and which bucket it works on.
use provider_minio.Runtime.{error_text, is_ok, Error, wrap, Event, Observation, ok, err, World}
use provider_minio.Base.{
  String, Option, none, keep, not, ◌==◌, is_some, inl, inr, ◌⊎◌, Bool-cases, Option-cases,
  if◌then◌else◌, ◌<>◌, ◌≡◌, Bool, true, false, some, ◌∷◌, arith,
}
use provider_minio.Apis.Bucket.{Bucket, get_bucket_name}
use provider_minio.Client.S3.{S3, RemoveObjectError}
use provider_minio.Bucket.Observe.{observe}
use provider_minio.Bucket.Delete.{
  delete, has_delete_all_policy, listed_objects, is_bucket_lock_enabled, quoted,
}

abbrev pub deleted_event : Event
deleted_event = record { reason = "Deleted"; message = "Bucket deleted" }

abbrev pub not_removed : RemoveObjectError → Error
not_removed o = wrap ("object " <> quoted o.object_name <> " cannot be removed") o.err

module _ {S : Type 0} (s3 : S3 S) where
  -- Without the policy DeleteAll the only call that Delete makes is the removal of the bucket, so no
  -- object is removed; its success and its error are those of the removal.
  pub delete_keeps_objects :
      (w : World S Bucket)
      → has_delete_all_policy w.resource ≡ false
      → let (r, s) = s3.remove_bucket w.outside w.resource.status.at_provider.bucket_name in
        ((delete s3 w).1.outside ≡ s) × ((delete s3 w).0 ≡ r)
  unfolding delete
  delete_keeps_objects w h = ground arith

  -- May the retention of objects be bypassed? Where the lock configuration is there and has a mode;
  -- not where it has none, nor after any error of the look at it.
  abbrev pub IsBypass : String → S → Bool → Type 0
  IsBypass name s bypass =
      ((mode : Option String) × (s3.get_object_lock_config s name ≡ ok mode)
        × (bypass ≡ is_some mode))
      ⊎ ((e : Error) × (s3.get_object_lock_config s name ≡ err e) × (bypass ≡ false))

  -- The removal of all listed objects of the bucket in the status, but for entries with an error.
  abbrev pub emptied : World S Bucket → Bool → Option RemoveObjectError × S
  emptied w bypass =
      let name = w.resource.status.at_provider.bucket_name in
      s3.remove_objects w.outside name
        (keep (λ o. not (is_some o.err)) (s3.list_objects w.outside name)) bypass

  -- Delete fails with the object that could not be removed, and has done nothing after its removal.
  abbrev pub IsStopped : World S Bucket → Option RemoveObjectError × S → Type 0
  IsStopped w (failed, s) =
      (o : RemoveObjectError) × (failed ≡ some o)
      × ((delete s3 w).0 ≡ err (not_removed o))
      × ((delete s3 w).1.outside ≡ s)
      × ((delete s3 w).1.events ≡ w.events)

  -- The objects are gone, and Delete ends as the removal of the bucket does.
  abbrev pub IsRemoved : World S Bucket → Option RemoveObjectError × S → Type 0
  IsRemoved w (failed, s) =
      let (r, t) = s3.remove_bucket s w.resource.status.at_provider.bucket_name in
      (failed ≡ none)
      × ((delete s3 w).0 ≡ r)
      × ((delete s3 w).1.outside ≡ t)
      × ((delete s3 w).1.events ≡ (if is_ok r then deleted_event ∷ w.events else w.events))

  lock-bypass :
      (name : String) (s : S) (bypass : Bool)
      → IsBypass name s bypass
      → (is_bucket_lock_enabled s3 name s ≡ ok bypass)
        ⊎ ((e : Error) × (is_bucket_lock_enabled s3 name s ≡ err e) × (bypass ≡ false))
  unfolding is_bucket_lock_enabled
  lock-bypass name s bypass (inl (mode, e, b)) = inl (ground arith)
  lock-bypass name s bypass (inr (e, f, b)) =
      elim (Bool-cases
        (error_text e == "Object Lock configuration does not exist for this bucket")) [
          | inl none_there ↦ inl (ground arith)
          | inr other ↦ inr (e, ground arith, b)
        ]

  delete_emptied :
      (w : World S Bucket) (bypass : Bool)
      → has_delete_all_policy w.resource ≡ true
      → (is_bucket_lock_enabled s3 w.resource.status.at_provider.bucket_name w.outside ≡ ok bypass)
        ⊎ ((e : Error) × (is_bucket_lock_enabled s3 w.resource.status.at_provider.bucket_name
                w.outside
              ≡ err e)
            × (bypass ≡ false))
      → IsStopped w (emptied w bypass) ⊎ IsRemoved w (emptied w bypass)
  unfolding delete listed_objects
  delete_emptied w bypass h (inl l) = elim (Option-cases (emptied w bypass).0) [
    | inl gone ↦ inr (gone, ground arith, ground arith, ground arith)
    | inr (o, failed) ↦ inl (o, failed, ground arith, ground arith, ground arith)
  ]
  delete_emptied w bypass h (inr (e, l, b)) = elim (Option-cases (emptied w bypass).0) [
    | inl gone ↦ inr (gone, ground arith, ground arith, ground arith)
    | inr (o, failed) ↦ inl (o, failed, ground arith, ground arith, ground arith)
  ]

  -- Under the policy DeleteAll the objects go first, past their retention exactly where the bucket has a
  -- lock configuration with a mode, and an error of the look at it counts as none. Where one cannot
  -- be removed, Delete fails, the bucket itself is not removed, and no event tells of a deletion;
  -- otherwise Delete ends as the removal of the bucket does, with the event exactly on success. This
  -- is where the look at the lock configuration does not panic.
  pub delete_all_outcomes :
      (w : World S Bucket) (bypass : Bool)
      → has_delete_all_policy w.resource ≡ true
      → IsBypass w.resource.status.at_provider.bucket_name w.outside bypass
      → IsStopped w (emptied w bypass) ⊎ IsRemoved w (emptied w bypass)
  delete_all_outcomes w bypass h b =
      delete_emptied w bypass h
        (lock-bypass w.resource.status.at_provider.bucket_name w.outside bypass b)

  -- An event of deletion is emitted exactly where Delete succeeds, and nothing else is emitted; the
  -- Bucket itself is never changed.
  pub delete_event :
      (w : World S Bucket)
      → let (r, w') = delete s3 w in
        (w'.events ≡ (if is_ok r then deleted_event ∷ w.events else w.events))
        × (w'.resource ≡ w.resource)
  unfolding delete
  delete_event w = ground arith

  -- After an Observe that found the bucket, the name that Delete and the update webhook go by is the
  -- name that the specification asks for.
  pub observe_names_bucket :
      (w : World S Bucket) {o : Observation}
      → (observe s3 w).0 ≡ ok o
      → o.resource_exists ≡ true
      → (observe s3 w).1.resource.status.at_provider.bucket_name ≡ get_bucket_name w.resource
  unfolding observe
  observe_names_bucket w h e = ground arith
