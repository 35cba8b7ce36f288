-- ===== src/Client/S3.antt =====
-- `*minio.Client` of minio-go, the S3 side of MinIO.
use provider_minio.Base.{String, Bool, List, Option}
use provider_minio.Base.GoMap.{GoMap}
use provider_minio.Runtime.{Error, Response, Result}

-- An object of a listing, or the listing's error at this place.
pub record ObjectInfo : Type 0 where
  pub key : String
  pub err : Option Error

pub record RemoveObjectError : Type 0 where
  pub object_name : String
  pub err : Error

-- `notification.FilterRule`
pub record S3Rule : Type 0 where
  pub name : String
  pub value : String

-- `notification.LambdaConfig` with the embedded `notification.Config`, its ARN as the text that
-- `Arn.String()` gives. The rules of a filter may be a nil slice.
pub record LambdaConfig : Type 0 where
  pub arn : String
  pub lambda : String
  pub events : List String
  pub filter : Option (Option (List S3Rule))

-- `notification.Configuration`. What it holds for queues and topics the program passes on unread.
pub record Configuration (Rest : Type 0) : Type 0 where
  pub lambda_configs : List LambdaConfig
  pub rest : Rest

-- `tags.Tags` stands for its map (`ToMap`). `remove_objects` returns the first error that its
-- channel delivers, and the state at that moment or at the channel's end.
pub record S3 (S : Type 0) : Type 0 where
  pub to_error_response : Error → Response
  pub make_bucket : S → String → String → Result (Unit {0}) × S
  pub bucket_exists : S → String → Result Bool
  pub remove_bucket : S → String → Result (Unit {0}) × S
  pub get_bucket_policy : S → String → Result String
  pub set_bucket_policy : S → String → String → Result (Unit {0}) × S
  pub new_tags : GoMap String → Result (GoMap String)
  pub get_bucket_tagging : S → String → Result (Option (GoMap String))
  pub set_bucket_tagging : S → String → GoMap String → Result (Unit {0}) × S
  pub remove_bucket_tagging : S → String → Result (Unit {0}) × S
  pub list_objects : S → String → List ObjectInfo
  pub get_object_lock_config : S → String → Result (Option String)
  pub remove_objects : S → String → List ObjectInfo → Bool → Option RemoveObjectError × S

-- The notification calls; `NewArn` with the text that its result prints as, and `NewConfig` of the ARN
-- that prints as a text, in an entry without an endpoint.
pub record Notifications (S Rest : Type 0) : Type 0 where
  pub no_rest : Rest
  pub new_arn : String → String → String → String → String → String
  pub new_config : String → LambdaConfig
  pub get_bucket_notification : S → String → Result (Configuration Rest)
  pub set_bucket_notification : S → String → Configuration Rest → Result (Unit {0}) × S
