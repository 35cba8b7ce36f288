-- ===== src/Runtime/Values.antt =====
-- Errors, events, conditions and the results of the four handlers of an external client.
use provider_minio.Base.{ℕ, String, ◌<>◌, Bool, false, List, []}
use provider_minio.Base.GoMap.{GoMap}

-- What an error of a client library tells: its text, and the status and code that
-- `minio.ToErrorResponse` finds in it.
pub record Response : Type 0 where
  pub message : String
  pub status_code : ℕ
  pub code : String

-- The value that `field.Invalid` reports.
pub data BadValue : Type 0 where
  nothing : BadValue
  one_text : String → BadValue
  many_texts : List String → BadValue

-- An error of a client library, `fmt.Errorf` and `errors.New`, `errors.Wrap` and `%w`.
pub data Error : Type 0 where
  api : Response → Error
  errorf : String → Error
  wrap : String → Error → Error

-- `err.Error()`
unfoldable pub error_text : Error → String
error_text (api r) = r.message
error_text (errorf s) = s
error_text (wrap s e) = s <> ": " <> error_text e

-- What an admission webhook returns: nil, an error, or `field.Invalid` with the field's path, the
-- value and the detail.
pub data Verdict : Type 0 where
  allowed : Verdict
  refused : Error → Verdict
  invalid : List String → BadValue → String → Verdict

-- `event.Event` of type Normal, the only type that the program emits.
pub record Event : Type 0 where
  pub reason : String
  pub message : String

-- The argument of `SetConditions`: four of Crossplane's, and a Ready condition of status False.
pub data Condition : Type 0 where
  available creating deleting : Condition
  reconcile_error : Error → Condition
  not_ready : String → String → Condition

-- `managed.ExternalObservation`, as far as the program fills it.
pub record Observation : Type 0 where
  pub resource_exists : Bool
  pub resource_up_to_date : Bool

-- `managed.ExternalObservation{}`
abbrev pub no_observation : Observation
no_observation = record { resource_exists = false; resource_up_to_date = false }

-- `managed.ExternalCreation`; the bytes of connection details are texts.
pub record Creation : Type 0 where
  pub connection_details : GoMap String

-- `managed.ExternalCreation{}`
abbrev pub no_creation : Creation
no_creation = record { connection_details = [] }
