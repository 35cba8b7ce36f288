-- ===== src/Notification/Validation.antt =====
-- operator/notificationconfiguration/validation.go
use provider_minio.Runtime.{Error, errorf}
use provider_minio.Base.{
  if◌then◌else◌, ◌==◌, is_empty, is_nil, member, trim_space, String, ◌<>◌, ◌||◌, Option, none, some,
  List, [], ◌∷◌,
}

-- The keys of `validS3Events`, all of which map to true.
abbrev pub valid_s3_events : List String
valid_s3_events =
    "s3:ObjectCreated:*" ∷ "s3:ObjectCreated:Put" ∷ "s3:ObjectCreated:Post"
    ∷ "s3:ObjectCreated:Copy" ∷ "s3:ObjectCreated:CompleteMultipartUpload" ∷ "s3:ObjectRemoved:*"
    ∷ "s3:ObjectRemoved:Delete" ∷ "s3:ObjectRemoved:DeleteMarkerCreated" ∷ "s3:ObjectRestore:*"
    ∷ "s3:ObjectRestore:Post" ∷ "s3:ObjectRestore:Completed" ∷ "s3:ObjectTagging:*"
    ∷ "s3:ObjectTagging:Put" ∷ "s3:ObjectTagging:Delete" ∷ "s3:ObjectAcl:*" ∷ "s3:ObjectAcl:Put"
    ∷ "s3:Replication:*" ∷ "s3:Replication:OperationFailedReplication"
    ∷ "s3:Replication:OperationNotTracked" ∷ "s3:Replication:OperationMissedThreshold"
    ∷ "s3:Replication:OperationReplicatedAfterThreshold" ∷ []

-- `ValidateS3Event`; `none` is nil.
unfoldable pub validate_s3_event : String → Option Error
validate_s3_event event =
    if is_empty event
    then some (errorf "event cannot be empty")
    else let event' = trim_space event in
      if member event' valid_s3_events then none else some (errorf ("invalid S3 event: " <> event'))

-- The loop of `ValidateEvents`: the first error.
unfoldable pub first_invalid_event : List String → Option Error
unfolding validate_s3_event
first_invalid_event [] = none
first_invalid_event (event ∷ events) = elim (validate_s3_event event) [
  | none ↦ first_invalid_event events
  | some e ↦ some e
]

-- `ValidateEvents`
unfoldable pub validate_events : List String → Option Error
unfolding first_invalid_event
validate_events events =
    if is_nil events
    then some (errorf "at least one event is required")
    else first_invalid_event events

-- `ValidateFilterRules`, on the names of the rules.
unfoldable pub validate_filter_rules : List String → Option Error
validate_filter_rules [] = none
validate_filter_rules (rule ∷ rules) =
    let rest = validate_filter_rules rules in
    if rule == "prefix" || rule == "suffix"
    then rest
    else some (errorf ("invalid filter rule name: " <> (rule <> " (must be 'prefix' or 'suffix')")))
