-- ===== src/Tests/Notifications.antt =====
-- Notification configurations over a server that keeps one for each bucket.
use provider_minio.Base.GoMap.{GoMap, lookup, insert, lookup-insert}
use provider_minio.Runtime.{Error, errorf, no_observation, no_creation, Result, ok, err, World}
use provider_minio.Base.{
  map, ap, Option-cases, inl, inr, ◌==◌, all, String, ◌<>◌, ◌≡◌, refl, ◌↔◌, true, false, none, some,
  List, [], ◌∷◌, arith, eq_refl,
}
use provider_minio.Client.S3.{LambdaConfig, Configuration, Notifications}
use provider_minio.Apis.Notification.{Notification, WebhookConfiguration}
use provider_minio.Notification.Lambda.{expected_arn, is_ours, spec_rules, new_lambda}
use provider_minio.Notification.Match.{find_webhook_configuration, is_configuration_up_to_date}
use provider_minio.Notification.Create.{create}
use provider_minio.Notification.Observe.{observe}
use provider_minio.Notification.Update.{update}
use provider_minio.Notification.Delete.{delete}
use provider_minio.Notification.Events.{deleted_event}
use provider_minio.Notification.Entry.{IsPrinting, IsEntryOf}
use provider_minio.Notification.Lists.{new_lambda-latest_iff}
use provider_minio.Notification.Unnamed.{unnamed, ReadsUnnamed, notification_never_found}
use provider_minio.Notification.Growth.{
  IsLawful, Has, start as start_round, once_more, creations_pile_up, notification_update_appends,
  notification_delete_keeps,
}
use provider_minio.Notification.Overwrite.{create-read_failed}

abbrev Config : Type 0
Config = Configuration String

abbrev missing : Error
missing = errorf "the bucket does not exist"

-- The server writes no ARNs and reads the rest back.
abbrev strip : LambdaConfig → LambdaConfig
strip l = record l { arn = unnamed }

abbrev mc : Notifications (GoMap Config) String
mc = record {
  no_rest = "";
  new_arn = λ partition service region id resource.
      (((((("arn:" <> partition) <> ":") <> service) <> ":") <> region) <> ":")
      <> (id <> (":" <> resource));
  new_config = λ arn. record { arn = arn; lambda = ""; events = []; filter = some none };
  get_bucket_notification = λ s bucket. elim (lookup bucket s) [
    | none ↦ err missing
    | some config ↦ ok (record config { lambda_configs = map strip config.lambda_configs })
  ];
  set_bucket_notification = λ s bucket config. (ok tt, insert bucket config s);
}

printing : IsPrinting mc
unfolding expected_arn
printing = record { arn_printed = λ id. refl; config_made = λ arn. refl }

all-strip : (xs : List LambdaConfig) → all (λ l. l.arn == unnamed) (map strip xs) ≡ true
all-strip [] = refl
all-strip (x ∷ xs) = all-strip xs

endpoints-strip :
    (xs : List LambdaConfig) → map (λ l. l.lambda) (map strip xs) ≡ map (λ l. l.lambda) xs
endpoints-strip [] = refl
endpoints-strip (x ∷ xs) = ap (λ ys. x.lambda ∷ ys) (endpoints-strip xs)

reads_unnamed : ReadsUnnamed mc
reads_unnamed s bucket config r = elim (Option-cases (lookup bucket s)) [
  | inl n ↦ absurd (ground arith)
  | inr (stored, e) ↦ ground (arith, all-strip stored.lambda_configs)
]

lawful : IsLawful mc
lawful = record {
  reads = reads_unnamed;
  written_read = λ s bucket config w. (
    record config { lambda_configs = map strip config.lambda_configs },
    ground (arith, lookup-insert bucket bucket config s, eq_refl bucket),
    endpoints-strip config.lambda_configs,
  );
}

abbrev hook : WebhookConfiguration
hook = record { id = "h1"; endpoint = "http://new"; auth_token = none; user_agent = none }

abbrev events : List String
events = "s3:ObjectCreated:*" ∷ "s3:ObjectRemoved:*" ∷ []

abbrev resource : Notification
resource = record {
  meta = record { name = "n"; namespace = ""; annotations = none; deletion_timestamp = none };
  spec = record {
    managed = record {
      provider_config_reference = some "minio";
      write_connection_secret_to_reference = none;
    };
    for_provider = record {
      bucket_name = "logs";
      webhook_configuration = some hook;
      queue_configuration = none;
      topic_configuration = none;
      events = events;
      filter = none;
    };
  };
  status = record {
    conditions = [];
    at_provider = record { configuration_id = ""; bucket_name = ""; last_updated = none };
  };
}

abbrev lambda_at : String → String → LambdaConfig
lambda_at arn endpoint = record { arn = arn; lambda = endpoint; events = events; filter = none }

-- An entry of someone else, and one of the resource at an endpoint.
abbrev config_with : String → Config
config_with endpoint = record {
  lambda_configs =
      lambda_at "arn:other" "http://other" ∷ lambda_at "arn:minio:sqs::h1:webhook" endpoint ∷ [];
  rest = "queues";
}

-- What is read of it.
abbrev read_with : String → Config
read_with endpoint = record (config_with endpoint) {
  lambda_configs = map strip (config_with endpoint).lambda_configs;
}

abbrev others : Config
others = record { lambda_configs = lambda_at "arn:other" "http://other" ∷ []; rest = "queues" }

abbrev start : GoMap Config → World (GoMap Config) Notification
start s = record { outside = s; events = []; resource = resource }

abbrev read_others : Config
read_others = record others { lambda_configs = map strip others.lambda_configs }

notification_never_found_example :
    (observe mc (start (("logs", config_with "http://new") ∷ []))).0 ≡ ok no_observation
unfolding observe lookup find_webhook_configuration is_ours expected_arn
notification_never_found_example =
    notification_never_found mc reads_unnamed (start (("logs", config_with "http://new") ∷ []))
      {o = no_observation} refl

-- The endpoints are read after two rounds, each of which appends one.
abbrev first_round : World (GoMap Config) Notification
first_round = (create mc (observe mc (start (("logs", others) ∷ []))).1).1

abbrev second_round : World (GoMap Config) Notification
second_round = (create mc (observe mc first_round).1).1

creations_pile_up_example :
    Has mc "logs" second_round.outside ("http://other" ∷ "http://new" ∷ "http://new" ∷ [])
unfolding create observe lookup insert find_webhook_configuration is_ours expected_arn
creations_pile_up_example =
    creations_pile_up mc lawful (start (("logs", others) ∷ [])) second_round 2
      {config = read_others} {webhook = hook} refl refl
      (once_more {c = no_creation} (once_more {c = no_creation} start_round refl) refl)

notification_update_appends_example :
    Has mc "logs"
      (update mc (start (("logs", config_with "http://old") ∷ []))).1.outside
      ("http://other" ∷ "http://old" ∷ "http://new" ∷ [])
unfolding update lookup
notification_update_appends_example =
    notification_update_appends mc lawful (start (("logs", config_with "http://old") ∷ []))
      {config = read_with "http://old"} {webhook = hook} refl refl refl

notification_delete_keeps_example :
    let w = start (("logs", config_with "http://new") ∷ []) in
    ((delete mc w).0 ≡ ok tt)
    × ((delete mc w).1.events ≡ deleted_event ∷ [])
    × Has mc "logs" (delete mc w).1.outside ("http://other" ∷ "http://new" ∷ [])
unfolding lookup
notification_delete_keeps_example =
    notification_delete_keeps mc lawful (start (("logs", config_with "http://new") ∷ []))
      {config = read_with "http://new"} {webhook = hook} refl refl refl

new_lambda-latest_iff_example :
    is_configuration_up_to_date resource.spec.for_provider
      (new_lambda mc resource.spec.for_provider hook)
    ≡ false
unfolding spec_rules
new_lambda-latest_iff_example =
    new_lambda-latest_iff mc printing resource.spec.for_provider hook refl

create-read_failed_example :
    (entry : LambdaConfig) × IsEntryOf resource.spec.for_provider hook entry
    × (((create mc (start [])).1.outside
          ≡ insert "logs" (record { lambda_configs = entry ∷ []; rest = "" }) [])
        × ((◌≡◌ {A = Result (Unit {0})} (ok tt) (ok tt))
            ↔ ((create mc (start [])).0 ≡ ok no_creation)))
unfolding lookup
create-read_failed_example =
    create-read_failed mc printing (start []) {webhook = hook} {e = missing} refl refl
