-- ===== src/Notification/Create.antt =====
-- operator/notificationconfiguration/create.go and events.go
use provider_minio.Runtime.{
  Event, Error, errorf, available, creating, Creation, no_creation, ok, err, panic, M, pure, crash,
  ◌>>=◌, ◌>>◌, attempt_call, get, modify, emit,
}
use provider_minio.Base.{if◌then◌else◌, String, Bool, false, ◌||◌, none, some, List, [], ◌∷◌, ◌++◌}
use provider_minio.Apis.Notification.{Notification, WebhookConfiguration}
use provider_minio.Apis.Managed.{Managed, narrow, notification_kind}
use provider_minio.Notification.Events.{created_event}
use provider_minio.Client.S3.{LambdaConfig, Configuration, Notifications}
use provider_minio.Notification.Lambda.{
  set_condition, fail_reconcile, new_lambda, is_ours, err_not_notification_configuration,
}

-- Is one of the entries that of the webhook?
unfoldable pub has_ours : WebhookConfiguration → List LambdaConfig → Bool
has_ours webhook [] = false
has_ours webhook (lambda ∷ lambdas) = is_ours webhook lambda || has_ours webhook lambdas

abbrev pub webhook_required : Error
webhook_required = errorf "webhook configuration is required"

module _ {S Rest : Type 0} (mc : Notifications S Rest) where
  -- The bucket's configuration, or an empty one on any error.
  unfoldable pub read_or_empty : String → M S Notification (Configuration Rest)
  read_or_empty bucket w = elim (mc.get_bucket_notification w.outside bucket) [
    | ok config ↦ (ok config, w)
    | err _ ↦ (ok (record { lambda_configs = []; rest = mc.no_rest }), w)
    | panic ↦ (panic, w)
  ]

  -- `SetBucketNotification` with one more entry, and what follows it.
  unfoldable pub write_lambda :
      Notification → Configuration Rest → LambdaConfig → Event → M S Notification (Unit {0})
  unfolding set_condition fail_reconcile
  write_lambda cr config lambda event = do
    let bucket = cr.spec.for_provider.bucket_name
    written ← attempt_call (λ s.
        mc.set_bucket_notification s bucket
          (record config { lambda_configs = config.lambda_configs ++ (lambda ∷ []) }))
    elim written [
      | ok _ ↦ modify (set_condition available) >> emit event.reason event.message
      | err e ↦ fail_reconcile e
      | panic ↦ crash
    ]

  -- What Create does for its webhook.
  unfoldable pub create_webhook : Notification → WebhookConfiguration → M S Notification (Unit {0})
  unfolding read_or_empty write_lambda new_lambda has_ours set_condition
  create_webhook cr webhook = do
    config ← read_or_empty cr.spec.for_provider.bucket_name
    if has_ours webhook config.lambda_configs
        then modify (set_condition available)
        else write_lambda cr config (new_lambda mc cr.spec.for_provider webhook) created_event

  -- `Create`, on a NotificationConfiguration.
  unfoldable pub create : M S Notification Creation
  unfolding create_webhook set_condition fail_reconcile
  create = do
    cr ← get
    modify (set_condition creating)
    elim cr.spec.for_provider.webhook_configuration [
      | none ↦ fail_reconcile webhook_required
      | some webhook ↦ create_webhook cr webhook >> pure no_creation
    ]

  unfoldable pub create_managed : M S Managed Creation
  unfolding narrow create
  create_managed = narrow notification_kind err_not_notification_configuration create
