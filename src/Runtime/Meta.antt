-- ===== src/Runtime/Meta.antt =====
-- The fields of a managed resource that come from Kubernetes and Crossplane.
use provider_minio.Base.{ℕ, String, Bool, true, Option, none, some, is_empty, List}
use provider_minio.Base.GoMap.{GoMap, has_key, entries}
use provider_minio.Runtime.Values.{Condition}

-- `metav1.ObjectMeta`. The annotations are a map that may be nil; a time stamp is a number.
pub record ObjectMeta : Type 0 where
  pub name : String
  pub namespace : String
  pub annotations : Option (GoMap String)
  pub deletion_timestamp : Option ℕ

-- `xpv1.ManagedResourceSpec`: two references, of which only the names are read.
pub record ManagedSpec : Type 0 where
  pub provider_config_reference : Option String
  pub write_connection_secret_to_reference : Option String

-- The `SetConditions` calls on the object so far, the last one first.
abbrev pub Conditions : Type 0
Conditions = List Condition

-- `_, ok := GetAnnotations()[key]`, where a nil map has no keys.
unfoldable pub has_annotation : String → ObjectMeta → Bool
has_annotation key m = has_key key (entries m.annotations)

-- `ref == nil || ref.Name == ""`
abbrev pub no_name : Option String → Bool
no_name none = true
no_name (some name) = is_empty name
