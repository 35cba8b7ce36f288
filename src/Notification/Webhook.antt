-- ===== src/Notification/Webhook.antt =====
-- operator/notificationconfiguration/webhook.go
use provider_minio.Runtime.{
  nothing, one_text, many_texts, error_text, Verdict, allowed, invalid, no_name,
}
use provider_minio.Base.{
  if◌then◌else◌, ◌!=◌, is_empty, is_some, is_nil, String, Option, none, some, List, [], ◌∷◌,
}
use provider_minio.Apis.Notification.{Notification, WebhookConfiguration}
use provider_minio.Notification.Validation.{validate_events}

abbrev pub field_path : List String → List String
field_path names = "spec" ∷ "forProvider" ∷ names

unfoldable pub missing_reference : Verdict
missing_reference =
    invalid ("spec" ∷ "providerConfigRef" ∷ "name" ∷ []) (one_text "null")
      "Provider config is required"

unfoldable pub no_events : Verdict
no_events = invalid (field_path ("events" ∷ [])) nothing "At least one event is required"

-- The tests on the webhook's configuration.
unfoldable pub validate_webhook : Option WebhookConfiguration → Verdict
validate_webhook none =
    invalid (field_path ("webhookConfiguration" ∷ [])) nothing "Webhook configuration is required"
validate_webhook (some webhook) =
    if is_empty webhook.endpoint
    then invalid (field_path ("webhookConfiguration" ∷ "endpoint" ∷ [])) (one_text "")
        "Endpoint is required"
    else if is_empty webhook.id
    then invalid (field_path ("webhookConfiguration" ∷ "id" ∷ [])) (one_text "") "ID is required"
    else allowed

-- `ValidateCreate`
unfoldable pub validate_create : Notification → Verdict
unfolding validate_webhook missing_reference no_events
validate_create n =
    if no_name n.spec.managed.provider_config_reference
    then missing_reference
    else if is_empty n.spec.for_provider.bucket_name
    then invalid (field_path ("bucketName" ∷ [])) (one_text "") "Bucket name is required"
    else if is_nil n.spec.for_provider.events
    then no_events
    else elim (validate_events n.spec.for_provider.events) [
      | some e ↦
          invalid (field_path ("events" ∷ [])) (many_texts n.spec.for_provider.events)
            (error_text e)
      | none ↦ validate_webhook n.spec.for_provider.webhook_configuration
    ]

-- `ValidateUpdate`
unfoldable pub validate_update : Notification → Notification → Verdict
unfolding missing_reference no_events
validate_update old_nc new_nc =
    if new_nc.spec.for_provider.bucket_name != old_nc.spec.for_provider.bucket_name
    then invalid (field_path ("bucketName" ∷ [])) (one_text new_nc.spec.for_provider.bucket_name)
        "Changing the bucket name is not allowed"
    else if no_name new_nc.spec.managed.provider_config_reference
    then missing_reference
    else if is_some new_nc.meta.deletion_timestamp
    then allowed
    else if is_nil new_nc.spec.for_provider.events
    then no_events
    else allowed

-- `ValidateDelete`
unfoldable pub validate_delete : Notification → Verdict
validate_delete n = allowed
