-- ===== src/ServiceAccount/Webhook.antt =====
-- operator/serviceaccount/webhook.go. `json.Unmarshal` into an empty interface is the parameter
-- `parse`, of which only the error is used.
use provider_minio.Runtime.{one_text, Error, wrap, error_text, Verdict, allowed, invalid, no_name}
use provider_minio.Base.{
  len, if◌then◌else◌, ltb, ◌!=◌, is_empty, is_some, String, not, ◌&&◌, ◌||◌, Option, none, some,
  List, [], ◌∷◌,
}
use provider_minio.Apis.ServiceAccount.{ServiceAccount, get_access_key}

abbrev pub field_path : String → List String
field_path name = "spec" ∷ "forProvider" ∷ name ∷ []

unfoldable pub missing_reference : Verdict
missing_reference =
    invalid ("spec" ∷ "providerConfigRef" ∷ "name" ∷ []) (one_text "null")
      "Provider config is required"

-- The two tests on the lengths of the keys, in bytes.
unfoldable pub validate_keys : String → String → Verdict
validate_keys access_key secret_key =
    if not (is_empty access_key) && (ltb (len access_key) 3 || ltb 128 (len access_key))
    then invalid (field_path "accessKey") (one_text access_key)
        "Access key must be between 3 and 128 characters"
    else if not (is_empty secret_key) && ltb (len secret_key) 8
    then invalid (field_path "secretKey") (one_text "***")
        "Secret key must be at least 8 characters"
    else allowed

module _ (parse : String → Option Error) where
  -- `validatePolicy`
  unfoldable pub validate_policy : String → Option Error
  validate_policy policy =
      if is_empty policy
      then none
      else elim (parse policy) [ none ↦ none | some e ↦ some (wrap "policy must be valid JSON" e) ]

  -- The verdict on the policy, and where it is good the one on what follows.
  unfoldable pub check_policy : String → Verdict → Verdict
  unfolding validate_policy
  check_policy policy next = if is_empty policy then next else elim (validate_policy policy) [
    | none ↦ next
    | some e ↦ invalid (field_path "policy") (one_text policy) (error_text e)
  ]

  -- `ValidateCreate`
  unfoldable pub validate_create : ServiceAccount → Verdict
  unfolding check_policy validate_keys missing_reference
  validate_create account =
      if no_name account.spec.managed.provider_config_reference
      then missing_reference
      else check_policy account.spec.for_provider.policy
          (validate_keys account.spec.for_provider.access_key account.spec.for_provider.secret_key)

  -- What `ValidateUpdate` tests once the fixed fields are seen to be the same.
  unfoldable pub validate_changes : ServiceAccount → Verdict
  unfolding check_policy missing_reference
  validate_changes account =
      if is_some account.meta.deletion_timestamp
      then allowed
      else if no_name account.spec.managed.provider_config_reference
      then missing_reference
      else check_policy account.spec.for_provider.policy allowed

  -- `ValidateUpdate`
  unfoldable pub validate_update : ServiceAccount → ServiceAccount → Verdict
  unfolding validate_changes
  validate_update old_account new_account =
      if get_access_key new_account != get_access_key old_account
      then invalid (field_path "accessKey") (one_text (get_access_key new_account))
          "Changing the access key is not allowed"
      else if new_account.spec.for_provider.target_user != old_account.spec.for_provider.target_user
      then invalid (field_path "targetUser") (one_text new_account.spec.for_provider.target_user)
          "Changing the target user is not allowed"
      else validate_changes new_account

-- `ValidateDelete`
unfoldable pub validate_delete : ServiceAccount → Verdict
validate_delete account = allowed
