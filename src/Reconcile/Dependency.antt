-- ===== src/Reconcile/Dependency.antt =====
-- A User that asks for a policy which is managed by a Policy object of the same MinIO.
use provider_minio.Base.GoMap.{GoMap, has_key}
use provider_minio.Runtime.{is_ok, allowed, ok, World, no_name}
use provider_minio.Base.{
  is_some, all, String, ◌≡◌, sym, ap, ◌∙◌, ◌≢◌, inl, inr, true, false, [], ◌∷◌, arith,
}
use provider_minio.Apis.Policy.{Policy}
use provider_minio.Apis.User.{User, get_user_name}
use provider_minio.Apis.ProviderConfig.{ProviderConfig}
use provider_minio.Client.Admin.{Admin}
use provider_minio.Client.Iam.{Iam}
use provider_minio.Client.Kube.{Kube, Crypto, Endpoint, Dial}
use provider_minio.Minio.Connect.{get_provider_config}
use provider_minio.Minio.Endpoints.{new_minio_admin}
use provider_minio.User.Policies.{policy_names}
use provider_minio.User.Webhook.{validate_update}
use provider_minio.User.Admission.{PoliciesExist, user_admission_iff}
use provider_minio.Policy.Create.{create}
use provider_minio.Policy.Delete.{delete}
use provider_minio.Policy.Fleet.{IsKeeping, create-has}

-- What is relied on besides: the listing that the webhook asks for is that of the same MinIO, and a
-- policy that was removed is gone.
pub record IsShared {S Pool Cert : Type 0} (admin : Admin S) (law : IsKeeping admin)
    (dial : Dial S Pool Cert) (endpoint : Endpoint Pool Cert) : Type 0 where
  pub asked :
      (s : S) (policies : GoMap String) (name : String)
      → dial.list_canned_policies s endpoint ≡ ok policies
      → has_key name policies ≡ law.has s name
  pub removed :
      (s : S) (name : String)
      → (admin.remove_canned_policy s name).0 ≡ ok tt
      → law.has (admin.remove_canned_policy s name).1 name ≡ false

module _ {S P Pool Cert : Type 0} (admin : Admin S) (iam : Iam P) (law : IsKeeping admin)
    (kube : Kube S) (crypto : Crypto Pool Cert) (dial : Dial S Pool Cert)
    (endpoint : Endpoint Pool Cert) (shared : IsShared admin law dial endpoint) where
  -- The webhook gets as far as the list of policies, over the endpoint.
  abbrev pub CanAsk : User → S → Type 0
  CanAsk u s =
      (config : ProviderConfig) × (policies : GoMap String) × (get_provider_config kube
          u.spec.managed s
        ≡ ok config)
      × (new_minio_admin kube crypto dial config s ≡ ok endpoint)
      × (dial.list_canned_policies s endpoint ≡ ok policies)

  -- The one policy that the user asks for exists exactly where MinIO has it.
  one_policy_there :
      (u : User) (s : S) (name : String)
      → policy_names u.spec.for_provider.policies ≡ name ∷ []
      → CanAsk u s
      → law.has s name ≡ true
      → PoliciesExist kube crypto dial u s
  one_policy_there u s name only (config, policies, read, made, listed) there = inr (
    config,
    endpoint,
    policies,
    read,
    made,
    listed,
    ap (all (λ n. has_key n policies)) only ∙ ground (arith, shared.asked s policies name),
  )

  one_policy_gone :
      (u : User) (s : S) (name : String)
      → policy_names u.spec.for_provider.policies ≡ name ∷ []
      → CanAsk u s
      → law.has s name ≡ false
      → ¬ PoliciesExist kube crypto dial u s
  one_policy_gone u s name only can gone (inl empty) = absurd (ground arith)
  one_policy_gone u s name only (config, policies, read, made, listed) gone
        (inr (config', endpoint', policies', read', made', listed', found)) =
      let found_one = ap (all (λ n. has_key n policies')) (sym only) ∙ found in
      absurd (ground (arith, shared.asked s policies' name))

  -- Delete of a Policy, whichever object it is.
  delete-gone :
      (w : World S Policy)
      → is_ok (delete admin w).0 ≡ true
      → law.has (delete admin w).1.outside w.resource.meta.name ≡ false
  unfolding delete
  delete-gone w h = ground (arith, shared.removed w.outside w.resource.meta.name)

  -- The webhook of the users lets an update through that keeps the user's name and asks for one policy
  -- alone, once a Policy of that name has been created with success, and refuses it again, unless the
  -- User is being deleted, once such a Policy has been deleted with success: Delete does not ask who uses
  -- the policy. This is where the webhook can read the list of policies, of the same MinIO.
  pub policy-user_admission :
      (w v : World S Policy) (old new : User) (name : String)
      → w.resource.meta.name ≡ name
      → v.resource.meta.name ≡ name
      → is_ok (create admin iam w).0 ≡ true
      → is_ok (delete admin v).0 ≡ true
      → policy_names new.spec.for_provider.policies ≡ name ∷ []
      → get_user_name new ≡ get_user_name old
      → no_name new.spec.managed.provider_config_reference ≡ false
      → is_some new.meta.deletion_timestamp ≡ false
      → CanAsk new (create admin iam w).1.outside
      → CanAsk new (delete admin v).1.outside
      → (validate_update kube crypto dial old new (create admin iam w).1.outside ≡ ok allowed)
        × (validate_update kube crypto dial old new (delete admin v).1.outside ≢ ok allowed)
  policy-user_admission w v old new name of_w of_v made removed only same referred live can can' =
      let created = (create admin iam w).1.outside in
      let deleted = (delete admin v).1.outside in
      let (_, claims) = create-has admin iam law w in
      let there = ap (law.has created) (sym of_w) ∙ (claims made).1 in
      let gone = ap (law.has deleted) (sym of_v) ∙ delete-gone v removed in
      (
        (user_admission_iff kube crypto dial old new created).1
            (same, referred, inr (one_policy_there new created name only can there)),
        λ admitted.
            let (_, _, which) = (user_admission_iff kube crypto dial old new deleted).0 admitted in
            elim which [
              | inl dying ↦ absurd (ground arith)
              | inr exist ↦ one_policy_gone new deleted name only can' gone exist
            ],
      )
