-- ===== src/Client/Rbac.antt =====
-- The types of rbac/v1 of the Kubernetes API, as far as they are written, and the calls on them.
use provider_minio.Base.{String, Bool, List}
use provider_minio.Base.GoMap.{GoMap}
use provider_minio.Runtime.{Error, Result}

pub record PolicyRule : Type 0 where
  pub api_groups : List String
  pub resources : List String
  pub verbs : List String

pub record ClusterRole : Type 0 where
  pub name : String
  pub labels : GoMap String
  pub rules : List PolicyRule

-- The reference is to a ClusterRole, by its name, and the one subject is a ServiceAccount.
pub record ClusterRoleBinding : Type 0 where
  pub name : String
  pub role_name : String
  pub subject_name : String
  pub subject_namespace : String

-- `is_already_exists` is `errors.IsAlreadyExists` of apimachinery.
pub record RbacClient (S : Type 0) : Type 0 where
  pub create_role : S → ClusterRole → Result (Unit {0}) × S
  pub update_role : S → ClusterRole → Result (Unit {0}) × S
  pub create_binding : S → ClusterRoleBinding → Result (Unit {0}) × S
  pub update_binding : S → ClusterRoleBinding → Result (Unit {0}) × S
  pub is_already_exists : Error → Bool
