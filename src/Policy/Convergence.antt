-- ===== src/Policy/Convergence.antt =====
-- Create and Update against what Observe finds afterwards.
use provider_minio.Base.GoMap.{GoMap, lookup, has_key-insert, entries}
use provider_minio.Runtime.{allowed, Creation, Result, ok, World, Result-cases, has_annotation}
use provider_minio.Base.{
  if◌then◌else◌, is_empty, Option-cases, String, ◌≡◌, sym, ap, ◌∙◌, ◌⊎◌, inl, inr, true, false,
  ◌&&◌, some, arith,
}
use provider_minio.Apis.Policy.{Policy}
use provider_minio.Client.Admin.{Admin}
use provider_minio.Client.Iam.{Iam}
use provider_minio.Policy.Render.{get_allow_bucket_policy, same_object}
use provider_minio.Policy.Create.{create, create_document}
use provider_minio.Policy.Update.{update, update_document}
use provider_minio.Policy.Observe.{observe, compare_policy}
use provider_minio.Policy.Ownership.{is_claimed, claimed, create_claims_policy}
use provider_minio.Policy.Webhook.{validate_create}

-- What is relied on: a policy that was added is listed, with a text that reads as the same policy.
pub record IsLawful {S P : Type 0} (admin : Admin S) (iam : Iam P) : Type 0 where
  pub stored : S → String → String → String
  pub added_listed :
      (s : S) (name document : String) (policies : GoMap String)
      → (admin.add_canned_policy s name document).0 ≡ ok tt
      → admin.list_canned_policies (admin.add_canned_policy s name document).1 ≡ ok policies
      → lookup name policies ≡ some (stored s name document)
  pub added_same :
      (s : S) (name document : String)
      → (admin.add_canned_policy s name document).0 ≡ ok tt
      → same_object iam document (stored s name document) ≡ ok true

-- A Policy that the webhook admits has at most one document.
at_most_one :
    (p : Policy)
    → validate_create p ≡ allowed
    → (is_empty p.spec.for_provider.allow_bucket ≡ true)
      ⊎ (is_empty p.spec.for_provider.raw_policy ≡ true)
unfolding validate_create
at_most_one p v = ground arith

module _ {S P : Type 0} (admin : Admin S) (iam : Iam P) where
  -- The document that the specification stands for.
  abbrev document : Policy → Result String
  document p =
      if is_empty p.spec.for_provider.allow_bucket
      then ok p.spec.for_provider.raw_policy
      else get_allow_bucket_policy iam p.spec.for_provider.allow_bucket

  create_document-writes :
      (p : Policy) (w : World S Policy)
      → (create_document admin iam p w).0 ≡ ok tt
      → (d : String) × (document p ≡ ok d)
        × ((admin.add_canned_policy w.outside p.meta.name d).0 ≡ ok tt)
        × ((create_document admin iam p w).1.outside
            ≡ (admin.add_canned_policy w.outside p.meta.name d).1)
  unfolding create_document
  create_document-writes p w h = elim (Result-cases (document p)) [
    | inl (d, e) ↦ (d, e, ground arith, ground arith)
    | inr (inl (f, e)) ↦ absurd (ground arith)
    | inr (inr e) ↦ absurd (ground arith)
  ]

  update_document-writes :
      (p : Policy) (w : World S Policy)
      → (is_empty p.spec.for_provider.allow_bucket && is_empty p.spec.for_provider.raw_policy)
        ≡ false
      → (update_document admin iam p w).0 ≡ ok tt
      → (d : String) × (document p ≡ ok d)
        × ((admin.add_canned_policy w.outside p.meta.name d).0 ≡ ok tt)
        × ((update_document admin iam p w).1.outside
            ≡ (admin.add_canned_policy w.outside p.meta.name d).1)
  unfolding update_document
  update_document-writes p w s h = elim (Result-cases (document p)) [
    | inl (d, e) ↦ (d, e, ground arith, ground arith)
    | inr (inl (f, e)) ↦ absurd (ground arith)
    | inr (inr e) ↦ absurd (ground arith)
  ]

  compare_same :
      (p : Policy) (d text : String) (w : World S Policy)
      → validate_create p ≡ allowed
      → document p ≡ ok d
      → same_object iam d text ≡ ok true
      → (compare_policy admin iam p text w).0
        ≡ ok (record { resource_exists = true; resource_up_to_date = true })
  unfolding compare_policy
  compare_same p d text w v e s = ground (arith, at_most_one p v)

  create-writes :
      (w : World S Policy) {c : Creation}
      → (create admin iam w).0 ≡ ok c
      → (d : String) × (document w.resource ≡ ok d)
        × ((admin.add_canned_policy w.outside w.resource.meta.name d).0 ≡ ok tt)
        × ((create admin iam w).1.outside
            ≡ (admin.add_canned_policy w.outside w.resource.meta.name d).1)
  unfolding create
  create-writes w h =
      let (d, e, added, after) = create_document-writes w.resource w (ground arith) in
      (d, e, added, ground (arith, after))

  update-writes :
      (w : World S Policy)
      → (is_empty w.resource.spec.for_provider.allow_bucket
          && is_empty w.resource.spec.for_provider.raw_policy)
        ≡ false
      → (update admin iam w).0 ≡ ok tt
      → (d : String) × (document w.resource ≡ ok d)
        × ((admin.add_canned_policy w.outside w.resource.meta.name d).0 ≡ ok tt)
        × ((update admin iam w).1.outside
            ≡ (admin.add_canned_policy w.outside w.resource.meta.name d).1)
  unfolding update
  update-writes w s h =
      let (d, e, added, after) = update_document-writes w.resource w s (ground arith) in
      (d, e, added, ground (arith, after))

  -- Update writes the annotation again.
  update_claims :
      (w : World S Policy)
      → (is_empty w.resource.spec.for_provider.allow_bucket
          && is_empty w.resource.spec.for_provider.raw_policy)
        ≡ false
      → (update admin iam w).0 ≡ ok tt
      → (a : GoMap String) × ((update admin iam w).1.resource ≡ claimed w.resource a)
  unfolding update update_document
  update_claims w s h = elim (Option-cases w.resource.meta.annotations) [
    | inl n ↦ absurd (ground arith)
    | inr (a, e) ↦ (a, ground arith)
  ]

  observe_listed :
      (w : World S Policy) (policies : GoMap String) (d text : String)
      → is_claimed w.resource ≡ true
      → validate_create w.resource ≡ allowed
      → document w.resource ≡ ok d
      → admin.list_canned_policies w.outside ≡ ok policies
      → lookup w.resource.meta.name policies ≡ some text
      → same_object iam d text ≡ ok true
      → (observe admin iam w).0 ≡ ok (record { resource_exists = true; resource_up_to_date = true })
  unfolding observe
  observe_listed w policies d text k v e l f s =
      ground (arith, compare_same w.resource d text w v e s)

module _ {S P : Type 0} (admin : Admin S) (iam : Iam P) (law : IsLawful admin iam) where
  -- Observe of the claimed Policy, once its document has been added.
  written-observe :
      (w w' : World S Policy) (policies : GoMap String) (d : String) (a : GoMap String)
      → w'.resource ≡ claimed w.resource a
      → validate_create w.resource ≡ allowed
      → document admin iam w.resource ≡ ok d
      → (admin.add_canned_policy w.outside w.resource.meta.name d).0 ≡ ok tt
      → w'.outside ≡ (admin.add_canned_policy w.outside w.resource.meta.name d).1
      → admin.list_canned_policies w'.outside ≡ ok policies
      → (observe admin iam w').0
        ≡ ok (record { resource_exists = true; resource_up_to_date = true })
  unfolding validate_create has_annotation entries get_allow_bucket_policy
  written-observe w w' policies d a same v e added after l =
      observe_listed admin iam w' policies d (law.stored w.outside w.resource.meta.name d)
        (ap is_claimed same ∙ has_key-insert _ _ _) (ap validate_create same ∙ v)
        (ap (document admin iam) same ∙ e) l
        (ap (λ (p : Policy). lookup p.meta.name policies) same
          ∙ law.added_listed w.outside _ d policies added
              (ap admin.list_canned_policies (sym after) ∙ l))
        (law.added_same w.outside _ d added)

  -- After a successful Create of a Policy that the webhook admits, Observe finds the policy and
  -- finds it up to date, if it can list the policies at all.
  pub policy_create-observe :
      (w : World S Policy) (policies : GoMap String) {c : Creation}
      → validate_create w.resource ≡ allowed
      → (create admin iam w).0 ≡ ok c
      → admin.list_canned_policies (create admin iam w).1.outside ≡ ok policies
      → (observe admin iam (create admin iam w).1).0
        ≡ ok (record { resource_exists = true; resource_up_to_date = true })
  policy_create-observe w policies v h l =
      let (d, e, added, after) = create-writes admin iam w h in
      let (kept, _, _) = create_claims_policy admin iam w in
      let a = entries w.resource.meta.annotations in
      let same : (create admin iam w).1.resource ≡ claimed w.resource a = kept ∙ (cc) in
      written-observe w (create admin iam w).1 policies d a same v e added after l

  -- After a successful Update of a Policy that the webhook admits and that has a document, Observe
  -- finds the policy and finds it up to date, if it can list the policies at all.
  pub policy_update-observe :
      (w : World S Policy) (policies : GoMap String)
      → validate_create w.resource ≡ allowed
      → (is_empty w.resource.spec.for_provider.allow_bucket
          && is_empty w.resource.spec.for_provider.raw_policy)
        ≡ false
      → (update admin iam w).0 ≡ ok tt
      → admin.list_canned_policies (update admin iam w).1.outside ≡ ok policies
      → (observe admin iam (update admin iam w).1).0
        ≡ ok (record { resource_exists = true; resource_up_to_date = true })
  policy_update-observe w policies v s h l =
      let (d, e, added, after) = update-writes admin iam w s h in
      let (a, same) = update_claims admin iam w s h in
      written-observe w (update admin iam w).1 policies d a same v e added after l
