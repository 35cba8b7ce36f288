-- ===== src/Notification/Admission.antt =====
-- The admission webhook and the validation of events.
use provider_minio.Base.{is_empty, member, trim_space, String, Bool, not, ◌&&◌}
use provider_minio.Apis.Notification.{Notification}
use provider_minio.Notification.Validation.{valid_s3_events}

-- The event is one of the table's once the white space around it is gone.
abbrev pub is_known : String → Bool
is_known event = not (is_empty event) && member (trim_space event) valid_s3_events
