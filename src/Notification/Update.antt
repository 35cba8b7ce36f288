-- ===== src/Notification/Update.antt =====
-- operator/notificationconfiguration/update.go
use provider_minio.Runtime.{
  creating, ok, err, panic, M, pure, crash, ◌>>=◌, ◌>>◌, attempt, get, modify,
}
use provider_minio.Base.{keep, String, not, none, some}
use provider_minio.Apis.Notification.{Notification, WebhookConfiguration}
use provider_minio.Apis.Managed.{Managed, narrow, notification_kind}
use provider_minio.Notification.Events.{updated_event}
use provider_minio.Client.S3.{Configuration, Notifications}
use provider_minio.Notification.Create.{write_lambda}
use provider_minio.Notification.Lambda.{
  set_condition, fail_reconcile, new_lambda, has_arn, err_not_notification_configuration,
}

module _ {S Rest : Type 0} (mc : Notifications S Rest) where
  -- The read of Update and Delete, where an error counts unless it is forgiven.
  unfoldable pub read_or_fail : String → M S Notification (Configuration Rest)
  unfolding fail_reconcile
  read_or_fail bucket = do
    config ← attempt (λ s. mc.get_bucket_notification s bucket)
    elim config [ ok config ↦ pure config | err e ↦ fail_reconcile e | panic ↦ crash ]

  -- The entries of the ARN go, whatever their endpoint, and the new one is appended.
  unfoldable pub update_webhook : Notification → WebhookConfiguration → M S Notification (Unit {0})
  unfolding read_or_fail write_lambda new_lambda has_arn
  update_webhook cr webhook = do
    config ← read_or_fail cr.spec.for_provider.bucket_name
    write_lambda mc cr
        (record config {
          lambda_configs = keep (λ l. not (has_arn webhook l)) config.lambda_configs;
        })
        (new_lambda mc cr.spec.for_provider webhook) updated_event

  -- `Update`, on a NotificationConfiguration.
  unfoldable pub update : M S Notification (Unit {0})
  unfolding update_webhook set_condition
  update = do
    cr ← get
    modify (set_condition creating)
    elim cr.spec.for_provider.webhook_configuration [
      | none ↦ pure tt
      | some webhook ↦ update_webhook cr webhook
    ]

  unfoldable pub update_managed : M S Managed (Unit {0})
  unfolding narrow update
  update_managed = narrow notification_kind err_not_notification_configuration update
