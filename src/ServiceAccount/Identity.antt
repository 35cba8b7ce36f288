-- ===== src/ServiceAccount/Identity.antt =====
-- How a ServiceAccount finds its account in MinIO: by the external name, an annotation that holds
-- the access key (operator/serviceaccount, with `meta.GetExternalName` of crossplane-runtime).
use provider_minio.Base.GoMap.{lookup, insert, lookup-insert, entries}
use provider_minio.Runtime.{Error, errorf, error_text, Result, ok, err, panic, ObjectMeta}
use provider_minio.Base.{
  if◌then◌else◌, contains, String, ◌≡◌, Bool, true, false, ◌||◌, none, some, arith,
}
use provider_minio.Client.Admin.{Admin}

abbrev pub access_key_name : String
access_key_name = "AWS_ACCESS_KEY_ID"

abbrev pub secret_key_name : String
secret_key_name = "AWS_SECRET_ACCESS_KEY"

abbrev pub err_not_service_account : Error
err_not_service_account = errorf "managed resource is not a service account"

abbrev pub external_name_annotation : String
external_name_annotation = "crossplane.io/external-name"

-- `meta.GetExternalName`: the annotation, or "" where there is none.
unfoldable pub get_external_name : ObjectMeta → String
get_external_name m = elim (lookup external_name_annotation (entries m.annotations)) [
  | none ↦ ""
  | some name ↦ name
]

-- `meta.SetExternalName`
unfoldable pub set_external_name : String → ObjectMeta → ObjectMeta
set_external_name name m = record m {
  annotations = some (insert external_name_annotation name (entries m.annotations));
}

-- Does the error say that there is no such account?
unfoldable pub is_not_found : Error → Bool
is_not_found e = contains (error_text e) "does not exist" || contains (error_text e) "not found"

module _ {S : Type 0} (admin : Admin S) where
  -- `serviceAccountExists`
  unfoldable pub service_account_exists : String → S → Result Bool
  unfolding is_not_found
  service_account_exists access_key s = elim (admin.info_service_account s access_key) [
    | ok _ ↦ ok true
    | err e ↦ if is_not_found e then ok false else err e
    | panic ↦ panic
  ]

-- The last key that was set is the one that is found.
pub get_external_name-set :
    (name : String) (m : ObjectMeta) → get_external_name (set_external_name name m) ≡ name
unfolding get_external_name set_external_name entries
get_external_name-set name m = ground (
  arith,
  lookup-insert external_name_annotation external_name_annotation name (entries m.annotations),
)
