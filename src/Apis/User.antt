-- ===== src/Apis/User.antt =====
-- apis/minio/v1beta1/user_types.go
use provider_minio.Base.{String, List, Option, is_empty, if◌then◌else◌}
use provider_minio.Runtime.{ObjectMeta, ManagedSpec, Conditions}

-- `none` is the nil slice: the field is left out of the manifest.
pub record UserParameters : Type 0 where
  pub user_name : String
  pub policies : Option (List String)

pub record UserSpec : Type 0 where
  pub managed : ManagedSpec
  pub for_provider : UserParameters

pub record UserProviderStatus : Type 0 where
  pub user_name : String
  pub status : String
  pub policies : String

pub record UserStatus : Type 0 where
  pub conditions : Conditions
  pub at_provider : UserProviderStatus

pub record User : Type 0 where
  pub meta : ObjectMeta
  pub spec : UserSpec
  pub status : UserStatus

unfoldable pub get_user_name : User → String
get_user_name u =
    if is_empty u.spec.for_provider.user_name then u.meta.name else u.spec.for_provider.user_name
