-- ===== src/Notification/Observe.antt =====
-- operator/notificationconfiguration/observe.go
use provider_minio.Runtime.{
  available, creating, Observation, no_observation, ok, err, panic, M, pure, crash, ◌>>=◌, ◌>>◌,
  attempt, get, modify,
}
use provider_minio.Base.{if◌then◌else◌, Bool, true, none, some, List, ◌∷◌}
use provider_minio.Apis.Notification.{Notification}
use provider_minio.Apis.Managed.{Managed, narrow, notification_kind}
use provider_minio.Client.S3.{LambdaConfig, Notifications}
use provider_minio.Notification.Lambda.{
  set_condition, fail_reconcile, is_missing, err_not_notification_configuration,
}
use provider_minio.Notification.Match.{find_webhook_configuration, is_configuration_up_to_date}

-- The status after the entry was found.
unfoldable pub set_found : Bool → Notification → Notification
set_found latest n = record n {
  status = record {
    at_provider = record (n.status.at_provider) {
      bucket_name = n.spec.for_provider.bucket_name;
      configuration_id = elim n.spec.for_provider.webhook_configuration [
        | none ↦ n.status.at_provider.configuration_id
        | some webhook ↦ webhook.id
      ];
    };
    conditions = (if latest then available else creating) ∷ n.status.conditions;
  };
}

-- The entry is not there.
unfoldable pub not_found : {S : Type 0} → M S Notification Observation
unfolding set_condition
not_found = modify (set_condition creating) >> pure no_observation

module _ {S Rest : Type 0} (mc : Notifications S Rest) where
  -- What follows once the configuration has been read.
  unfoldable pub observe_lambdas : Notification → List LambdaConfig → M S Notification Observation
  unfolding set_found not_found
  observe_lambdas cr lambdas = elim (find_webhook_configuration cr.spec.for_provider lambdas) [
    | none ↦ not_found
    | some lambda ↦ do
      let latest = is_configuration_up_to_date cr.spec.for_provider lambda
      modify (set_found latest)
      pure (record { resource_exists = true; resource_up_to_date = latest })
  ]

  -- `Observe`, on a NotificationConfiguration.
  unfoldable pub observe : M S Notification Observation
  unfolding observe_lambdas fail_reconcile is_missing
  observe = do
    cr ← get
    config ← attempt (λ s. mc.get_bucket_notification s cr.spec.for_provider.bucket_name)
    elim config [
      | ok config ↦ observe_lambdas cr config.lambda_configs
      | err e ↦ if is_missing e then not_found else fail_reconcile e
      | panic ↦ crash
    ]

  unfoldable pub observe_managed : M S Managed Observation
  unfolding narrow observe
  observe_managed = narrow notification_kind err_not_notification_configuration observe
