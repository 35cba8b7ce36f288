-- ===== src/Apis/Bucket.antt =====
-- apis/minio/v1beta1/bucket_types.go
use provider_minio.Base.{String, Option, is_empty, if◌then◌else◌}
use provider_minio.Base.GoMap.{GoMap}
use provider_minio.Runtime.{ObjectMeta, ManagedSpec, Conditions}

-- `BucketDeletionPolicy` is a string type with two constants.
abbrev pub delete_if_empty : String
delete_if_empty = "DeleteIfEmpty"

abbrev pub delete_all : String
delete_all = "DeleteAll"

pub record BucketParameters : Type 0 where
  pub bucket_name : String
  pub region : String
  pub bucket_deletion_policy : String
  pub policy : Option String
  pub tags : Option (GoMap String)

pub record BucketSpec : Type 0 where
  pub managed : ManagedSpec
  pub for_provider : BucketParameters

pub record BucketProviderStatus : Type 0 where
  pub bucket_name : String

pub record BucketStatus : Type 0 where
  pub conditions : Conditions
  pub endpoint : String
  pub endpoint_url : String
  pub at_provider : BucketProviderStatus

pub record Bucket : Type 0 where
  pub meta : ObjectMeta
  pub spec : BucketSpec
  pub status : BucketStatus

unfoldable pub get_bucket_name : Bucket → String
get_bucket_name b =
    if is_empty b.spec.for_provider.bucket_name
    then b.meta.name
    else b.spec.for_provider.bucket_name
