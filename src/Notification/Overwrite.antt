-- ===== src/Notification/Overwrite.antt =====
-- What Create does where the configuration cannot be read.
use provider_minio.Runtime.{Error, no_creation, ok, err, World, Result-cases}
use provider_minio.Base.{◌≡◌, ◌↔◌, inl, inr, some, [], ◌∷◌, arith}
use provider_minio.Apis.Notification.{Notification, WebhookConfiguration}
use provider_minio.Client.S3.{LambdaConfig, Notifications}
use provider_minio.Notification.Lambda.{new_lambda}
use provider_minio.Notification.Create.{create, has_ours}
use provider_minio.Notification.Entry.{IsPrinting, IsEntryOf, new_lambda-IsEntryOf}

module _ {S Rest : Type 0} (mc : Notifications S Rest) where
  read_failed_runs :
      (w : World S Notification) {webhook : WebhookConfiguration} {e : Error}
      → let spec = w.resource.spec.for_provider in
        let written =
          mc.set_bucket_notification w.outside spec.bucket_name
            (record { lambda_configs = new_lambda mc spec webhook ∷ []; rest = mc.no_rest }) in
        spec.webhook_configuration ≡ some webhook
        → mc.get_bucket_notification w.outside spec.bucket_name ≡ err e
        → ((create mc w).1.outside ≡ written.1)
          × ((written.0 ≡ ok tt) ↔ ((create mc w).0 ≡ ok no_creation))
  unfolding create has_ours
  read_failed_runs w {webhook} e r =
      let spec = w.resource.spec.for_provider in
      elim (Result-cases
        (mc.set_bucket_notification w.outside spec.bucket_name
          (record { lambda_configs = new_lambda mc spec webhook ∷ []; rest = mc.no_rest })).0) [
            | inl (u, s) ↦ (ground arith, (ground arith, ground arith))
            | inr (inl (f, s)) ↦ (ground arith, (ground arith, ground arith))
            | inr (inr s) ↦ (ground arith, (ground arith, ground arith))
          ]

  -- Whatever the error with which the configuration cannot be read, Create writes a configuration that
  -- holds one entry and nothing else: an entry with the ARN, the endpoint, the events and the filter
  -- that the specification asks for. It succeeds exactly where that write does.
  pub create-read_failed :
      (law : IsPrinting mc) (w : World S Notification) {webhook : WebhookConfiguration} {e : Error}
      → let spec = w.resource.spec.for_provider in
        spec.webhook_configuration ≡ some webhook
        → mc.get_bucket_notification w.outside spec.bucket_name ≡ err e
        → (entry : LambdaConfig) × IsEntryOf spec webhook entry
          × (let written =
                mc.set_bucket_notification w.outside spec.bucket_name
                  (record { lambda_configs = entry ∷ []; rest = mc.no_rest }) in
              ((create mc w).1.outside ≡ written.1)
              × ((written.0 ≡ ok tt) ↔ ((create mc w).0 ≡ ok no_creation)))
  create-read_failed law w {webhook} e r =
      let spec = w.resource.spec.for_provider in
      (new_lambda mc spec webhook, new_lambda-IsEntryOf mc law spec webhook, read_failed_runs w e r)
