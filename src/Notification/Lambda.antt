-- ===== src/Notification/Lambda.antt =====
-- The entry of a bucket's notification configuration that belongs to a resource: its ARN, the entry
-- that Create and Update write, and the conditions and events of the controller.
use provider_minio.Runtime.{
  Error, errorf, error_text, Condition, reconcile_error, M, fail, ◌>>◌, modify,
}
use provider_minio.Base.{
  ◌==◌, contains, String, ◌<>◌, Bool, ◌&&◌, Option, none, some, List, ◌∷◌, ◌++◌, map,
}
use provider_minio.Apis.Notification.{
  Notification, NotificationParameters, WebhookConfiguration, FilterRule,
}
use provider_minio.Client.S3.{LambdaConfig, S3Rule, Notifications}

abbrev pub err_not_notification_configuration : Error
err_not_notification_configuration = errorf "managed resource is not a NotificationConfiguration"

-- `fmt.Sprintf("arn:minio:sqs::%s:webhook", id)`
unfoldable pub expected_arn : String → String
expected_arn id = "arn:minio:sqs::" <> (id <> ":webhook")

-- `lambda.Arn.String() == expectedARN`
unfoldable pub has_arn : WebhookConfiguration → LambdaConfig → Bool
has_arn webhook lambda = lambda.arn == expected_arn webhook.id

-- The entry of a webhook: its ARN and its endpoint.
unfoldable pub is_ours : WebhookConfiguration → LambdaConfig → Bool
unfolding has_arn
is_ours webhook lambda = has_arn webhook lambda && lambda.lambda == webhook.endpoint

-- The rules of the specification's filter, where it has a filter with a key.
unfoldable pub spec_rules : NotificationParameters → Option (List FilterRule)
spec_rules spec = elim spec.filter [
  | none ↦ none
  | some filter ↦ elim filter.key [ none ↦ none | some key ↦ some key.filter_rules ]
]

unfoldable pub to_rule : FilterRule → S3Rule
to_rule rule = record { name = rule.name; value = rule.value }

-- The filter of an entry: that of `NewConfig`, or the rules as a slice that is not nil.
unfoldable pub written_filter :
    Option (Option (List S3Rule)) → Option (List FilterRule) → Option (Option (List S3Rule))
unfolding to_rule
written_filter default none = default
written_filter default (some rules) = some (some (map to_rule rules))

module _ {S Rest : Type 0} (mc : Notifications S Rest) where
  -- The entry that Create and Update append.
  unfoldable pub new_lambda : NotificationParameters → WebhookConfiguration → LambdaConfig
  unfolding spec_rules written_filter
  new_lambda spec webhook =
      let config = mc.new_config (mc.new_arn "minio" "sqs" "" webhook.id "webhook") in
      record config {
        lambda = webhook.endpoint;
        events = config.events ++ spec.events;
        filter = written_filter config.filter (spec_rules spec);
      }

unfoldable pub set_condition : Condition → Notification → Notification
set_condition c n = record n { status = record (n.status) { conditions = c ∷ n.status.conditions } }

-- `SetConditions(ReconcileError(err))`, and the error is returned.
unfoldable pub fail_reconcile : {S A : Type 0} → Error → M S Notification A
unfolding set_condition
fail_reconcile e = modify (set_condition (reconcile_error e)) >> fail e

-- Does the error say that the bucket or its configuration does not exist?
unfoldable pub is_missing : Error → Bool
is_missing e = contains (error_text e) "does not exist"
