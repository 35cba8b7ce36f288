-- ===== src/User/Webhook.antt =====
-- operator/user/webhook.go. A verdict depends on the cluster and on MinIO, and a call may panic.
use provider_minio.Base.GoMap.{GoMap, has_key}
use provider_minio.Runtime.{
  one_text, many_texts, errorf, error_text, Verdict, allowed, invalid, Result, ok, err, panic,
  no_name,
}
use provider_minio.Base.{if◌then◌else◌, ◌!=◌, is_some, String, ◌<>◌, List, [], ◌∷◌}
use provider_minio.Runtime.Try.{◌>>=◌}
use provider_minio.Apis.User.{User, get_user_name}
use provider_minio.Client.Kube.{Kube, Crypto, Dial}
use provider_minio.Minio.Connect.{get_provider_config}
use provider_minio.Minio.Endpoints.{new_minio_admin}
use provider_minio.User.Policies.{no_policies, policy_names}

-- The loop over the policies: the first that is missing.
unfoldable pub all_found : GoMap String → List String → Result (Unit {0})
all_found policies [] = ok tt
all_found policies (name ∷ names) =
    let rest = all_found policies names in
    if has_key name policies then rest else err (errorf ("policy not found: " <> name))

unfoldable pub missing_reference : Verdict
missing_reference =
    invalid ("spec" ∷ "providerConfigRef" ∷ "name" ∷ []) (one_text "null")
      "Provider config is required"

-- What an error of `doesPolicyExist` becomes.
unfoldable pub policy_verdict : List String → Result (Unit {0}) → Result Verdict
policy_verdict names (ok _) = ok allowed
policy_verdict names (err e) =
    ok (invalid ("spec" ∷ "forProvider" ∷ "policies" ∷ []) (many_texts names) (error_text e))
policy_verdict names panic = panic

module _ {S Pool Cert : Type 0} (kube : Kube S) (crypto : Crypto Pool Cert)
    (dial : Dial S Pool Cert) where
  -- `doesPolicyExist`
  unfoldable pub does_policy_exist : User → S → Result (Unit {0})
  unfolding all_found get_provider_config new_minio_admin
  does_policy_exist user s = if no_policies user.spec.for_provider.policies then ok tt else (do
    config ← get_provider_config kube user.spec.managed s
    admin ← new_minio_admin kube crypto dial config s
    policies ← dial.list_canned_policies s admin
    all_found policies (policy_names user.spec.for_provider.policies))

  unfoldable pub check_policies : User → S → Result Verdict
  unfolding does_policy_exist policy_verdict
  check_policies user s =
      policy_verdict (policy_names user.spec.for_provider.policies) (does_policy_exist user s)

  -- `ValidateCreate`
  unfoldable pub validate_create : User → S → Result Verdict
  unfolding check_policies missing_reference
  validate_create user s =
      if no_name user.spec.managed.provider_config_reference
      then ok missing_reference
      else check_policies user s

  -- `ValidateUpdate`
  unfoldable pub validate_update : User → User → S → Result Verdict
  unfolding check_policies missing_reference
  validate_update old_user new_user s =
      if get_user_name new_user != get_user_name old_user
      then ok (
          invalid ("spec" ∷ "forProvider" ∷ "userName" ∷ []) (one_text (get_user_name new_user))
            "Changing the username is not allowed")
      else if no_name new_user.spec.managed.provider_config_reference
      then ok missing_reference
      else if is_some new_user.meta.deletion_timestamp
      then ok allowed
      else check_policies new_user s

-- `ValidateDelete`
unfoldable pub validate_delete : User → Verdict
validate_delete user = allowed
