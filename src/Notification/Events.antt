-- ===== src/Notification/Events.antt =====
-- operator/notificationconfiguration/events.go
use provider_minio.Runtime.{Event}

abbrev pub created_event : Event
created_event = record {
  reason = "Created";
  message = "Webhook notification configuration successfully created";
}

abbrev pub deleted_event : Event
deleted_event = record {
  reason = "Deleted";
  message = "Webhook notification configuration successfully deleted";
}

abbrev pub updated_event : Event
updated_event = record {
  reason = "Updated";
  message = "Webhook notification configuration successfully updated";
}
