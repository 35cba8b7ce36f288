-- ===== src/Client/Admin.antt =====
-- `*madmin.AdminClient` of madmin-go, and the generator of passwords.
use provider_minio.Base.{ℕ, String, Bool, List, Option}
use provider_minio.Base.GoMap.{GoMap}
use provider_minio.Runtime.{Result}

-- `madmin.UserInfo`: `policy_name` lists the policies of the user, separated by commas.
pub record UserInfo : Type 0 where
  pub policy_name : String
  pub status : String

-- `madmin.AccountEnabled`
abbrev pub account_enabled : String
account_enabled = "enabled"

-- `madmin.AddServiceAccountReq`; a nil policy is `none`.
pub record AddServiceAccountReq : Type 0 where
  pub policy : Option String
  pub target_user : String
  pub access_key : String
  pub secret_key : String
  pub name : String
  pub description : String
  pub expiration : Option ℕ

-- `madmin.UpdateServiceAccountReq`
pub record UpdateServiceAccountReq : Type 0 where
  pub new_policy : Option String
  pub new_secret_key : String
  pub new_name : String
  pub new_description : String
  pub new_expiration : Option ℕ

-- `madmin.InfoServiceAccountResp`
pub record InfoServiceAccountResp : Type 0 where
  pub parent_user : String
  pub account_status : String
  pub implied_policy : Bool
  pub policy : String
  pub expiration : Option ℕ

-- `madmin.Credentials`
pub record Credentials : Type 0 where
  pub access_key : String
  pub secret_key : String

pub record Admin (S : Type 0) : Type 0 where
  pub list_canned_policies : S → Result (GoMap String)
  pub add_canned_policy : S → String → String → Result (Unit {0}) × S
  pub remove_canned_policy : S → String → Result (Unit {0}) × S
  pub list_users : S → Result (GoMap UserInfo)
  pub get_user_info : S → String → Result UserInfo
  pub add_user : S → String → String → Result (Unit {0}) × S
  pub set_user : S → String → String → String → Result (Unit {0}) × S
  pub remove_user : S → String → Result (Unit {0}) × S
  pub attach_policy : S → List String → String → Result (Unit {0}) × S
  pub detach_policy : S → List String → String → Result (Unit {0}) × S
  pub info_service_account : S → String → Result InfoServiceAccountResp
  pub add_service_account : S → AddServiceAccountReq → Result Credentials × S
  pub update_service_account : S → String → UpdateServiceAccountReq → Result (Unit {0}) × S
  pub delete_service_account : S → String → Result (Unit {0}) × S

-- `password.Generate(length, digits, symbols, noUpper, allowRepeat)`
abbrev pub Generate : Type 0 → Type 0
Generate S = ℕ → ℕ → ℕ → Bool → Bool → S → Result String × S
