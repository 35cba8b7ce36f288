-- ===== src/User/Policies.antt =====
-- The policies of a user: the text in which MinIO lists them, `setUserPolicies`, and the names that
-- the handlers share.
use provider_minio.Base.GoMap.{slice_deep_equal}
use provider_minio.Runtime.{Error, errorf, Condition, M, pure, call}
use provider_minio.Base.{
  split, if◌then◌else◌, is_empty, is_nil, split, String, Bool, true, Option, none, some, List, [],
  ◌∷◌,
}
use Prim.Native.Char.{Char, code}
use provider_minio.Apis.User.{User}
use provider_minio.Client.Admin.{Admin, UserInfo}

abbrev pub err_not_user : Error
err_not_user = errorf "managed resource is not a user"

abbrev pub user_created_annotation_key : String
user_created_annotation_key = "minio.crossplane.io/user-created"

abbrev pub access_key_name : String
access_key_name = "AWS_ACCESS_KEY_ID"

abbrev pub secret_key_name : String
secret_key_name = "AWS_SECRET_ACCESS_KEY"

unfoldable pub set_condition : Condition → User → User
set_condition c u = record u { status = record (u.status) { conditions = c ∷ u.status.conditions } }

abbrev pub comma : Char
comma = ","

-- `strings.Split(policyName, ",")`, and nothing where the first part is empty.
unfoldable pub split_policies : String → List String
unfolding split
split_policies policy_name =
    let (first, others) = split (code comma) policy_name in
    if is_empty first then [] else first ∷ others

-- `equalPolicies`: the nil slice where the first part is empty.
unfoldable pub equal_policies : UserInfo → User → Bool
unfolding split slice_deep_equal
equal_policies info user =
    let (first, others) = split (code comma) info.policy_name in
    slice_deep_equal (if is_empty first then none else some (first ∷ others))
      user.spec.for_provider.policies

-- `len(policies) == 0`, of a slice that may be nil.
abbrev pub no_policies : Option (List String) → Bool
no_policies none = true
no_policies (some names) = is_nil names

-- The names of a slice that may be nil.
abbrev pub policy_names : Option (List String) → List String
policy_names none = []
policy_names (some names) = names

module _ {S : Type 0} (admin : Admin S) where
  -- `setUserPolicies`
  unfoldable pub set_user_policies : String → Option (List String) → M S User (Unit {0})
  set_user_policies user_name policies =
      if no_policies policies
      then pure tt
      else call (λ s. admin.attach_policy s (policy_names policies) user_name)
