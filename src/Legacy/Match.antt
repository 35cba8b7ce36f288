-- ===== src/Legacy/Match.antt =====
-- When the older user controller takes a user for up to date.
use provider_minio.Runtime.{Observation, ok, World, Result-cases}
use provider_minio.Base.{
  if◌then◌else◌, is_empty, String, ◌≡◌, ◌↔◌, inl, inr, true, List, [], ◌∷◌, arith, eq_iff, eq_refl,
}
use provider_minio.Apis.User.{User, get_user_name}
use provider_minio.Client.Admin.{Admin, UserInfo}
use provider_minio.User.Policies.{policy_names}
use provider_minio.Legacy.User.{observe, policies_match}

-- The list that holds the one text, unless it is empty.
abbrev pub one_policy : String → List String
one_policy policy_name = if is_empty policy_name then [] else policy_name ∷ []

policies_match_iff :
    (desired : List String) (policy_name : String)
    → (policies_match desired policy_name ≡ true) ↔ (desired ≡ one_policy policy_name)
unfolding policies_match
policies_match_iff [] policy_name = (λ h. ground arith, λ h. ground arith)
policies_match_iff (d ∷ []) policy_name =
    (λ h. ground (arith, eq_iff policy_name d), λ h. ground (arith, eq_refl policy_name))
policies_match_iff (d ∷ e ∷ ds) policy_name = (λ h. ground arith, λ h. absurd (ground arith))

module _ {S : Type 0} (admin : Admin S) where
  -- Where Observe returns an observation, it reports the user as up to date exactly when MinIO tells
  -- of it and the list of the specification is the text that MinIO gives, as one policy, or is empty
  -- where that text is.
  older_latest_iff :
      (w : World S User) {o : Observation}
      → (observe admin w).0 ≡ ok o
      → (o.resource_up_to_date ≡ true) ↔ (
          (info : UserInfo) × (admin.get_user_info w.outside (get_user_name w.resource) ≡ ok info)
          × (policy_names w.resource.spec.for_provider.policies ≡ one_policy info.policy_name))
  unfolding observe
  older_latest_iff w h =
      elim (Result-cases (admin.get_user_info w.outside (get_user_name w.resource))) [
        | inl (info, t) ↦
            let same =
              policies_match_iff (policy_names w.resource.spec.for_provider.policies)
                info.policy_name in
            (λ l. (info, t, ground (arith, same)), λ (i, s, e). ground (arith, same))
        | inr (inl (e, t)) ↦ (λ l. ground arith, λ (i, s, m). ground arith)
        | inr (inr t) ↦ (λ l. ground arith, λ (i, s, m). ground arith)
      ]
