-- ===== src/Notification/Match.antt =====
-- `findWebhookConfiguration` and `isConfigurationUpToDate` of
-- operator/notificationconfiguration/observe.go.
use provider_minio.Base.GoMap.{GoMap, lookup, insert}
use provider_minio.Base.{
  if◌then◌else◌, nat_eq, ◌==◌, is_some, length, all, String, Bool, true, false, not, ◌&&◌, Option,
  none, some, List, [], ◌∷◌,
}
use provider_minio.Apis.Notification.{NotificationParameters, WebhookConfiguration, FilterRule}
use provider_minio.Client.S3.{LambdaConfig, S3Rule}
use provider_minio.Notification.Lambda.{is_ours, spec_rules}

-- The first entry of the webhook.
unfoldable pub find_lambda : WebhookConfiguration → List LambdaConfig → Option LambdaConfig
find_lambda webhook [] = none
find_lambda webhook (lambda ∷ lambdas) =
    let rest = find_lambda webhook lambdas in if is_ours webhook lambda then some lambda else rest

-- `findWebhookConfiguration`
unfoldable pub find_webhook_configuration :
    NotificationParameters → List LambdaConfig → Option LambdaConfig
unfolding find_lambda
find_webhook_configuration spec lambdas = elim spec.webhook_configuration [
  | none ↦ none
  | some webhook ↦ find_lambda webhook lambdas
]

-- The map that `specEvents[event] = true` fills.
unfoldable pub event_set : List String → GoMap Bool → GoMap Bool
event_set [] m = m
event_set (event ∷ events) m = event_set events (insert event true m)

-- `specEvents[event]`
unfoldable pub in_set : GoMap Bool → String → Bool
in_set m event = elim (lookup event m) [ none ↦ false | some b ↦ b ]

-- As many events as the specification has different ones, and each of them specified.
unfoldable pub events_match : List String → List String → Bool
unfolding event_set in_set
events_match specified events =
    let set = event_set specified [] in
    nat_eq (length events) (length set) && all (in_set set) events

-- The rules one by one; the two lists have the same length where this is called.
unfoldable pub rules_match : List FilterRule → List S3Rule → Bool
rules_match [] [] = true
rules_match (rule ∷ rules) (other ∷ others) =
    (other.name == rule.name && other.value == rule.value) && rules_match rules others
rules_match _ _ = false

-- The rules of the specification, if there are any, and the filter of the entry.
unfoldable pub filter_matches : Option (List FilterRule) → Option (Option (List S3Rule)) → Bool
unfolding rules_match
filter_matches none filter = not (is_some filter)
filter_matches (some rules) none = false
filter_matches (some rules) (some none) = false
filter_matches (some rules) (some (some others)) =
    nat_eq (length others) (length rules) && rules_match rules others

-- `isConfigurationUpToDate`, on an entry that was found.
unfoldable pub is_configuration_up_to_date : NotificationParameters → LambdaConfig → Bool
unfolding events_match filter_matches
is_configuration_up_to_date spec lambda = elim spec.webhook_configuration [
  | none ↦ false
  | some webhook ↦
      lambda.lambda == webhook.endpoint
      && (events_match spec.events lambda.events && filter_matches (spec_rules spec) lambda.filter)
]
