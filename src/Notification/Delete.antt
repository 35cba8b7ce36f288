-- ===== src/Notification/Delete.antt =====
-- operator/notificationconfiguration/delete.go
use provider_minio.Runtime.{
  deleting, ok, err, panic, M, pure, crash, ◌>>=◌, ◌>>◌, attempt, attempt_call, get, modify, emit,
}
use provider_minio.Base.{if◌then◌else◌, keep, not, none, some, List}
use provider_minio.Apis.Notification.{Notification, WebhookConfiguration}
use provider_minio.Apis.Managed.{Managed, narrow, notification_kind}
use provider_minio.Client.S3.{LambdaConfig, Configuration, Notifications}
use provider_minio.Notification.Lambda.{
  set_condition, fail_reconcile, is_ours, is_missing, err_not_notification_configuration,
}
use provider_minio.Notification.Events.{deleted_event}

-- What is left of the entries: `Arn != expectedARN || Lambda != Endpoint`.
unfoldable pub without_ours : WebhookConfiguration → List LambdaConfig → List LambdaConfig
without_ours webhook lambdas = keep (λ l. not (is_ours webhook l)) lambdas

module _ {S Rest : Type 0} (mc : Notifications S Rest) where
  -- `SetBucketNotification` with what is left, and the event; a missing bucket is forgiven.
  unfoldable pub write_rest :
      Notification → WebhookConfiguration → Configuration Rest → M S Notification (Unit {0})
  unfolding fail_reconcile is_missing without_ours
  write_rest cr webhook config = do
    let bucket = cr.spec.for_provider.bucket_name
    let left = record config { lambda_configs = without_ours webhook config.lambda_configs }
    written ← attempt_call (λ s. mc.set_bucket_notification s bucket left)
    elim written [
      | ok _ ↦ emit deleted_event.reason deleted_event.message
      | err e ↦
          if is_missing e then emit deleted_event.reason deleted_event.message else fail_reconcile e
      | panic ↦ crash
    ]

  unfoldable pub delete_webhook : Notification → WebhookConfiguration → M S Notification (Unit {0})
  unfolding write_rest
  delete_webhook cr webhook = do
    config ← attempt (λ s. mc.get_bucket_notification s cr.spec.for_provider.bucket_name)
    elim config [
      | ok config ↦ write_rest cr webhook config
      | err e ↦ if is_missing e then pure tt else fail_reconcile e
      | panic ↦ crash
    ]

  -- `Delete`, on a NotificationConfiguration.
  unfoldable pub delete : M S Notification (Unit {0})
  unfolding delete_webhook set_condition
  delete = do
    cr ← get
    modify (set_condition deleting)
    elim cr.spec.for_provider.webhook_configuration [
      | none ↦ pure tt
      | some webhook ↦ delete_webhook cr webhook
    ]

  unfoldable pub delete_managed : M S Managed (Unit {0})
  unfolding narrow delete
  delete_managed = narrow notification_kind err_not_notification_configuration delete
