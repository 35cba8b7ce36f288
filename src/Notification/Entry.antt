-- ===== src/Notification/Entry.antt =====
-- What an entry of a resource is, told apart from the code that makes it.
use provider_minio.Base.{String, ◌≡◌, none, some, [], map, arith, Option-cases, inl, inr}
use provider_minio.Apis.Notification.{NotificationParameters, WebhookConfiguration}
use provider_minio.Client.S3.{LambdaConfig, Notifications}
use provider_minio.Notification.Lambda.{expected_arn, spec_rules, to_rule, new_lambda}

-- What is relied on: `NewArn` prints its five parts behind "arn:", with colons between; and `NewConfig`
-- makes a Config of the ARN without events, with a filter whose rules are nil.
pub record IsPrinting {S Rest : Type 0} (mc : Notifications S Rest) : Type 0 where
  pub arn_printed : (id : String) → mc.new_arn "minio" "sqs" "" id "webhook" ≡ expected_arn id
  pub config_made :
      (arn : String)
      → mc.new_config arn ≡ record { arn = arn; lambda = ""; events = []; filter = some none }

-- An entry with the ARN, the endpoint, the events and the filter that a specification asks for.
pub record IsEntryOf (spec : NotificationParameters) (webhook : WebhookConfiguration)
    (lambda : LambdaConfig) : Type 0 where
  pub named : lambda.arn ≡ expected_arn webhook.id
  pub called : lambda.lambda ≡ webhook.endpoint
  pub told : lambda.events ≡ spec.events
  pub filtered :
      lambda.filter
      ≡ elim (spec_rules spec) [ none ↦ some none | some rules ↦ some (some (map to_rule rules)) ]

module _ {S Rest : Type 0} (mc : Notifications S Rest) (law : IsPrinting mc) where
  pub new_lambda-IsEntryOf :
      (spec : NotificationParameters) (webhook : WebhookConfiguration)
      → IsEntryOf spec webhook (new_lambda mc spec webhook)
  unfolding new_lambda
  new_lambda-IsEntryOf spec webhook =
      let made = law.config_made (mc.new_arn "minio" "sqs" "" webhook.id "webhook") in
      record {
        named = ground (arith, made, law.arn_printed webhook.id);
        called = ground arith;
        told = ground (arith, made);
        filtered = elim (Option-cases (spec_rules spec)) [
          | inl n ↦ ground (arith, made)
          | inr (rules, e) ↦ ground (arith, made)
        ];
      }
