-- ===== src/Policy/Ownership.antt =====
-- Which policies the controller takes for its own: what Create claims and what Observe finds.
use provider_minio.Base.GoMap.{GoMap, has_key, insert, entries}
use provider_minio.Runtime.{
  is_ok, errorf, allowed, Event, Observation, no_observation, ok, err, panic, World, Result-cases,
  has_annotation, no_name,
}
use provider_minio.Base.{
  if◌then◌else◌, Option-cases, is_some, String, ◌≡◌, ◌↔◌, ◌⊎◌, inl, inr, Bool, true, false, not,
  ◌&&◌, some, ◌∷◌, arith, eq_iff,
}
use provider_minio.Apis.Policy.{Policy}
use provider_minio.Client.Admin.{Admin}
use provider_minio.Client.Iam.{Iam}
use provider_minio.Policy.Render.{policy_created_annotation_key}
use provider_minio.Policy.Create.{create, create_document}
use provider_minio.Policy.Observe.{observe}
use provider_minio.Policy.Webhook.{validate_create, validate_update}

abbrev pub created_event : Event
created_event = record { reason = "Created"; message = "User successfully created" }

-- Does the Policy carry the annotation of a created policy?
abbrev pub is_claimed : Policy → Bool
is_claimed p = has_annotation policy_created_annotation_key p.meta

-- The annotations with the claim, where the map is not nil.
abbrev pub claimed : Policy → GoMap String → Policy
claimed p a = record p {
  meta = record (p.meta) { annotations = some (insert policy_created_annotation_key "claimed" a) };
}

module _ {S P : Type 0} (admin : Admin S) (iam : Iam P) where
  -- A policy that MinIO has and that the Policy does not claim is left alone: Observe reports
  -- nothing, so that the runtime calls Create, and Create fails; neither of them changes anything.
  pub foreign_policy :
      (w : World S Policy) (policies : GoMap String)
      → is_claimed w.resource ≡ false
      → admin.list_canned_policies w.outside ≡ ok policies
      → has_key w.resource.meta.name policies ≡ true
      → (observe admin iam w ≡ (ok no_observation, w))
        × (create admin iam w ≡ (err (errorf "policy already exists"), w))
  unfolding observe create
  foreign_policy w policies u l h = ground arith

  -- The Policy is claimed where Create succeeds, and stays as it was where Create fails or panics.
  -- One event is emitted where Create succeeds, and none where it returns an error. It does not
  -- succeed on annotations that are a nil map.
  pub create_claims_policy :
      (w : World S Policy)
      → let (r, w') = create admin iam w in
        (w'.resource ≡ (
          if is_ok r then claimed w.resource (entries w.resource.meta.annotations) else w.resource))
        × ((w'.events ≡ (if is_ok r then created_event ∷ w.events else w.events)) ⊎ (r ≡ panic))
        × ((is_ok r && not (is_some w.resource.meta.annotations)) ≡ false)
  unfolding create create_document entries
  create_claims_policy w = elim (Option-cases w.resource.meta.annotations) [
    | inl n ↦ (ground arith, ground arith, ground arith)
    | inr (a, e) ↦ (ground arith, ground arith, ground arith)
  ]

  -- Where Observe returns an observation, it reports the policy as existing exactly when the Policy
  -- claims it and MinIO lists it.
  pub policy_exists_iff :
      (w : World S Policy) {o : Observation}
      → (observe admin iam w).0 ≡ ok o
      → (o.resource_exists ≡ true) ↔ (
          (is_claimed w.resource ≡ true)
          × ((policies : GoMap String) × (admin.list_canned_policies w.outside ≡ ok policies)
              × (has_key w.resource.meta.name policies ≡ true)))
  unfolding observe has_key
  policy_exists_iff w h = elim (Result-cases (admin.list_canned_policies w.outside)) [
    | inl (policies, l) ↦ (λ t. (ground arith, (policies, l, ground arith)), λ t. ground arith)
    | inr (inl (e, l)) ↦ (λ t. ground arith, λ t. ground arith)
    | inr (inr l) ↦ (λ t. ground arith, λ t. ground arith)
  ]

-- Both webhooks let a Policy through exactly when it has at most one of the two documents and
-- refers to a configuration.
policy_admission_iff :
    (old new : Policy)
    → ((validate_create new ≡ allowed) ↔ (validate_update old new ≡ allowed))
      × ((validate_create new ≡ allowed) ↔ (
          ((new.spec.for_provider.allow_bucket ≡ "") ⊎ (new.spec.for_provider.raw_policy ≡ ""))
          × (no_name new.spec.managed.provider_config_reference ≡ false)))
unfolding validate_create validate_update
policy_admission_iff old new = ground (
  arith,
  eq_iff new.spec.for_provider.allow_bucket "",
  eq_iff new.spec.for_provider.raw_policy "",
)
