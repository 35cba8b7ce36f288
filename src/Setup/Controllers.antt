-- ===== src/Setup/Controllers.antt =====
-- operator/operator.go, operator/config/setup.go, and the files setup.go of the five controllers. The
-- loggers and the recorders that the manager hands out are left out.
use provider_minio.Runtime.{M, pure, ◌>>◌, call}
use provider_minio.Base.{to_lower, ℕ, String, none, some, List, [], ◌∷◌}
use provider_minio.Apis.Register.{
  GroupVersionKind, provider_config_group_version_kind, provider_config_usage_group_version_kind,
  provider_config_usage_list_group_version_kind, bucket_group_version_kind, user_group_version_kind,
  policy_group_version_kind, service_account_group_version_kind,
  notification_configuration_group_version_kind, bucket_type, bucket_group_kind, user_type,
  user_group_kind, policy_type, policy_group_kind, service_account_type, service_account_group_kind,
  notification_configuration_type, notification_configuration_group_kind, provider_config_type,
  provider_config_group_kind,
}
use provider_minio.Client.Manager.{Manager, ControllerSpec}

-- `for _, setup := range setups { if err := setup(mgr); err != nil { return err } }`
unfoldable pub each : {S R : Type 0} → List (M S R (Unit {0})) → M S R (Unit {0})
each [] = pure tt
each (setup ∷ setups) = setup >> each setups

-- `createReconciler`, with the name and the type that the builder adds.
unfoldable pub reconciler : String → GroupVersionKind → String → ℕ → ControllerSpec
reconciler kind managed_kind name creation_grace_period = record {
  name = name;
  kind = kind;
  kinds = managed_kind ∷ [];
  poll_interval = some 60;
  creation_grace_period = some creation_grace_period;
  max_concurrent_reconciles = none;
}

module _ {S R : Type 0} (mgr : Manager S) where
  -- `SetupControllerWithConnector`
  unfoldable pub setup_controller_with_connector :
      String → GroupVersionKind → String → ℕ → M S R (Unit {0})
  unfolding reconciler
  setup_controller_with_connector kind managed_kind name creation_grace_period =
      call (λ s. mgr.add_controller s (reconciler kind managed_kind name creation_grace_period))

  unfoldable pub setup_config_controller : M S R (Unit {0})
  setup_config_controller = call (λ s. mgr.add_controller s (record {
    name = mgr.controller_name provider_config_group_kind;
    kind = provider_config_type;
    kinds =
        provider_config_group_version_kind ∷ provider_config_usage_group_version_kind
        ∷ provider_config_usage_list_group_version_kind ∷ [];
    poll_interval = none;
    creation_grace_period = none;
    max_concurrent_reconciles = none;
  }))

  unfoldable pub setup_bucket_controller : M S R (Unit {0})
  unfolding setup_controller_with_connector to_lower
  setup_bucket_controller =
      setup_controller_with_connector bucket_type bucket_group_version_kind
        (to_lower bucket_group_kind) 0

  unfoldable pub setup_user_controller : M S R (Unit {0})
  unfolding setup_controller_with_connector to_lower
  setup_user_controller =
      setup_controller_with_connector user_type user_group_version_kind (to_lower user_group_kind) 0

  unfoldable pub setup_policy_controller : M S R (Unit {0})
  unfolding setup_controller_with_connector to_lower
  setup_policy_controller =
      setup_controller_with_connector policy_type policy_group_version_kind
        (to_lower policy_group_kind) 0

  unfoldable pub setup_service_account_controller : M S R (Unit {0})
  unfolding setup_controller_with_connector to_lower
  setup_service_account_controller =
      setup_controller_with_connector service_account_type service_account_group_version_kind
        (to_lower service_account_group_kind) 0

  unfoldable pub setup_notification_configuration_controller : M S R (Unit {0})
  unfolding setup_controller_with_connector to_lower
  setup_notification_configuration_controller =
      setup_controller_with_connector notification_configuration_type
        notification_configuration_group_version_kind
        (to_lower notification_configuration_group_kind) 0

  -- `SetupWebhook` of each of the five.
  unfoldable pub setup_bucket_webhook : M S R (Unit {0})
  setup_bucket_webhook = call (λ s. mgr.add_webhook s bucket_type)

  unfoldable pub setup_user_webhook : M S R (Unit {0})
  setup_user_webhook = call (λ s. mgr.add_webhook s user_type)

  unfoldable pub setup_policy_webhook : M S R (Unit {0})
  setup_policy_webhook = call (λ s. mgr.add_webhook s policy_type)

  unfoldable pub setup_service_account_webhook : M S R (Unit {0})
  setup_service_account_webhook = call (λ s. mgr.add_webhook s service_account_type)

  unfoldable pub setup_notification_configuration_webhook : M S R (Unit {0})
  setup_notification_configuration_webhook =
      call (λ s. mgr.add_webhook s notification_configuration_type)

  -- `SetupV1Beta1Controller` and `SetupV1Beta1Webhook`, which nothing calls.
  unfoldable pub setup_v1beta1_user_controller : M S R (Unit {0})
  unfolding setup_user_controller
  setup_v1beta1_user_controller = setup_user_controller

  unfoldable pub setup_v1beta1_user_webhook : M S R (Unit {0})
  unfolding setup_user_webhook
  setup_v1beta1_user_webhook = setup_user_webhook

  unfoldable pub setup_v1beta1_notification_configuration_controller : M S R (Unit {0})
  unfolding setup_notification_configuration_controller
  setup_v1beta1_notification_configuration_controller = setup_notification_configuration_controller

  unfoldable pub setup_v1beta1_notification_configuration_webhook : M S R (Unit {0})
  unfolding setup_notification_configuration_webhook
  setup_v1beta1_notification_configuration_webhook = setup_notification_configuration_webhook

  unfoldable pub setup_v1beta1_service_account_controller : M S R (Unit {0})
  unfolding setup_controller_with_connector to_lower
  setup_v1beta1_service_account_controller =
      setup_controller_with_connector service_account_type service_account_group_version_kind
        (to_lower service_account_group_kind) 0

  unfoldable pub setup_v1beta1_service_account_webhook : M S R (Unit {0})
  setup_v1beta1_service_account_webhook = call (λ s. mgr.add_webhook s service_account_type)

  -- `SetupControllers`
  unfoldable pub setup_controllers : M S R (Unit {0})
  unfolding each setup_config_controller setup_bucket_controller setup_user_controller
      setup_policy_controller setup_service_account_controller
      setup_notification_configuration_controller
  setup_controllers = each (
      setup_config_controller ∷ setup_bucket_controller ∷ setup_user_controller
      ∷ setup_policy_controller ∷ setup_service_account_controller
      ∷ setup_notification_configuration_controller ∷ [])

  -- `SetupWebhooks`
  unfoldable pub setup_webhooks : M S R (Unit {0})
  unfolding each setup_bucket_webhook setup_user_webhook setup_policy_webhook
      setup_service_account_webhook setup_notification_configuration_webhook
  setup_webhooks = each (
      setup_bucket_webhook ∷ setup_user_webhook ∷ setup_policy_webhook
      ∷ setup_service_account_webhook ∷ setup_notification_configuration_webhook ∷ [])
