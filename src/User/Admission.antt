-- ===== src/User/Admission.antt =====
-- What the webhook of the users lets through (operator/user/webhook.go).
use provider_minio.Base.GoMap.{GoMap, has_key}
use provider_minio.Runtime.{allowed, Result, ok, err, panic, no_name}
use provider_minio.Base.{
  Bool-cases, is_some, all, String, ◌≡◌, refl, ◌↔◌, ◌⊎◌, inl, inr, true, false, List, [], ◌∷◌,
  arith, eq_iff,
}
use provider_minio.Runtime.Try.{bind-ok}
use provider_minio.Apis.User.{User, get_user_name}
use provider_minio.Apis.ProviderConfig.{ProviderConfig}
use provider_minio.Client.Kube.{Kube, Crypto, Endpoint, Dial}
use provider_minio.Minio.Connect.{get_provider_config}
use provider_minio.Minio.Endpoints.{new_minio_admin}
use provider_minio.User.Policies.{no_policies, policy_names}
use provider_minio.User.Webhook.{
  all_found, does_policy_exist, check_policies, policy_verdict, validate_update,
}

all_found_iff :
    (policies : GoMap String) (names : List String)
    → (all_found policies names ≡ ok tt) ↔ (all (λ n. has_key n policies) names ≡ true)
unfolding all_found
all_found_iff policies [] = (λ h. refl, λ h. refl)
all_found_iff policies (name ∷ names) =
    let ih = all_found_iff policies names in (ground (arith, ih), ground (arith, ih))

policy_verdict_iff :
    (names : List String) (r : Result (Unit {0}))
    → (policy_verdict names r ≡ ok allowed) ↔ (r ≡ ok tt)
unfolding policy_verdict
policy_verdict_iff names (ok _) = (λ h. refl, λ h. refl)
policy_verdict_iff names (err e) = (λ h. absurd (ground arith), λ h. absurd (ground arith))
policy_verdict_iff names panic = (λ h. absurd (ground arith), λ h. absurd (ground arith))

module _ {S Pool Cert : Type 0} (kube : Kube S) (crypto : Crypto Pool Cert)
    (dial : Dial S Pool Cert) where
  -- The policies of the user all exist in the MinIO that the user's provider configuration names; it
  -- is not asked where there are none.
  abbrev pub PoliciesExist : User → S → Type 0
  PoliciesExist user s =
      (no_policies user.spec.for_provider.policies ≡ true)
      ⊎ ((config : ProviderConfig) × (admin : Endpoint Pool Cert) × (policies : GoMap String)
          × (get_provider_config kube user.spec.managed s ≡ ok config)
          × (new_minio_admin kube crypto dial config s ≡ ok admin)
          × (dial.list_canned_policies s admin ≡ ok policies)
          × (all (λ n. has_key n policies) (policy_names user.spec.for_provider.policies) ≡ true))

  does_policy_exist_sound :
      (user : User) (s : S)
      → does_policy_exist kube crypto dial user s ≡ ok tt
      → PoliciesExist user s
  unfolding does_policy_exist
  does_policy_exist_sound user s h =
      elim (Bool-cases (no_policies user.spec.for_provider.policies)) [
        | inl empty ↦ inl empty
        | inr full ↦
            let (config, read, h) =
              bind-ok (get_provider_config kube user.spec.managed s) _ (rw full at h) in
            let (admin, made, h) = bind-ok _ _ h in
            let (policies, listed, found) = bind-ok _ _ h in
            inr (config, admin, policies, read, made, listed, (all_found_iff policies _).0 found)
      ]

  does_policy_exist_complete :
      (user : User) (s : S)
      → PoliciesExist user s
      → does_policy_exist kube crypto dial user s ≡ ok tt
  unfolding does_policy_exist
  does_policy_exist_complete user s (inl empty) = ground arith
  does_policy_exist_complete user s (inr (config, admin, policies, read, made, listed, found)) =
      ground
        (arith, (all_found_iff policies (policy_names user.spec.for_provider.policies)).1 found)

  -- `ValidateUpdate` admits an update of a user exactly where it keeps the name, refers to a provider
  -- configuration, and is being deleted or has only policies that exist in the MinIO which that
  -- configuration names.
  pub user_admission_iff :
      (old new : User) (s : S)
      → (validate_update kube crypto dial old new s ≡ ok allowed) ↔ (
          (get_user_name new ≡ get_user_name old)
          × (no_name new.spec.managed.provider_config_reference ≡ false)
          × ((is_some new.meta.deletion_timestamp ≡ true) ⊎ PoliciesExist new s))
  unfolding validate_update check_policies
  user_admission_iff old new s =
      let verdict =
        policy_verdict_iff (policy_names new.spec.for_provider.policies)
          (does_policy_exist kube crypto dial new s) in
      let names = eq_iff (get_user_name new) (get_user_name old) in
      (
        λ h. elim (Bool-cases (is_some new.meta.deletion_timestamp)) [
          | inl deleted ↦ ground (arith, names)
          | inr kept ↦ (
            ground (arith, names),
            ground arith,
            inr (does_policy_exist_sound new s (ground (arith, verdict))),
          )
        ],
        λ (same, referred, rest). elim rest [
          | inl deleted ↦ ground (arith, names)
          | inr exist ↦ ground (arith, names, verdict, does_policy_exist_complete new s exist)
        ],
      )
