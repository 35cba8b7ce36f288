-- ===== src/Notification/Growth.antt =====
-- How the list of entries of a bucket grows: Create and Update append, and Delete takes nothing away.
use provider_minio.Runtime.{Creation, ok, World}
use provider_minio.Base.{
  keep, ℕ, zero, suc, String, ◌≡◌, refl, ap, ◌∙◌, sym, false, not, some, List, [], ◌∷◌, ◌++◌, map,
  arith,
}
use provider_minio.Apis.Notification.{Notification, NotificationParameters, WebhookConfiguration}
use provider_minio.Client.S3.{LambdaConfig, Configuration, Notifications}
use provider_minio.Notification.Lambda.{has_arn, new_lambda}
use provider_minio.Notification.Create.{create, has_ours}
use provider_minio.Notification.Update.{update}
use provider_minio.Notification.Delete.{delete, without_ours}
use provider_minio.Notification.Observe.{observe}
use provider_minio.Notification.Events.{deleted_event}
use provider_minio.Notification.Unnamed.{ReadsUnnamed, none_found}

-- The endpoints of the entries, in their order.
abbrev pub endpoints : {Rest : Type 0} → Configuration Rest → List String
endpoints config = map (λ l. l.lambda) config.lambda_configs

-- What is relied on: what is read has no ARNs, and after a write that succeeds the entries are read
-- with the endpoints that were written.
pub record IsLawful {S Rest : Type 0} (mc : Notifications S Rest) : Type 0 where
  pub reads : ReadsUnnamed mc
  pub written_read :
      (s : S) (bucket : String) (config : Configuration Rest)
      → let (r, s') = mc.set_bucket_notification s bucket config in
        r ≡ ok tt
        → (after : Configuration Rest) × (mc.get_bucket_notification s' bucket ≡ ok after)
          × (endpoints after ≡ endpoints config)

-- The texts with one more text behind them, so many times.
abbrev pub again : ℕ → List String → String → List String
again zero xs x = xs
again (suc n) xs x = again n xs x ++ (x ∷ [])

map-snoc :
    (xs : List LambdaConfig) (l : LambdaConfig)
    → map (λ l. l.lambda) (xs ++ (l ∷ [])) ≡ map (λ l. l.lambda) xs ++ (l.lambda ∷ [])
map-snoc [] l = refl
map-snoc (x ∷ xs) l = ap (λ ys. x.lambda ∷ ys) (map-snoc xs l)

module _ {S Rest : Type 0} (mc : Notifications S Rest) where
  -- The configuration with the entry of the resource behind the given ones.
  abbrev pub with_new :
      Configuration Rest
      → List LambdaConfig
      → NotificationParameters
      → WebhookConfiguration
      → Configuration Rest
  with_new config kept spec webhook = record config {
    lambda_configs = kept ++ (new_lambda mc spec webhook ∷ []);
  }

  -- The bucket's entries have these endpoints.
  abbrev pub Has : String → S → List String → Type 0
  Has bucket s names =
      (config : Configuration Rest) × (mc.get_bucket_notification s bucket ≡ ok config)
      × (endpoints config ≡ names)

  create_runs :
      (w : World S Notification) {config : Configuration Rest} {webhook : WebhookConfiguration}
      {c : Creation}
      → let spec = w.resource.spec.for_provider in
        let call =
          mc.set_bucket_notification w.outside spec.bucket_name
            (with_new config config.lambda_configs spec webhook) in
        spec.webhook_configuration ≡ some webhook
        → mc.get_bucket_notification w.outside spec.bucket_name ≡ ok config
        → has_ours webhook config.lambda_configs ≡ false
        → (create mc w).0 ≡ ok c
        → ((create mc w).1.resource.spec.for_provider ≡ spec)
          × (call.0 ≡ ok tt)
          × ((create mc w).1.outside ≡ call.1)
  unfolding create
  create_runs w e r n h = ground arith

  update_runs :
      (w : World S Notification) {config : Configuration Rest} {webhook : WebhookConfiguration}
      → let spec = w.resource.spec.for_provider in
        let call = mc.set_bucket_notification w.outside spec.bucket_name (
          with_new config
            (keep (λ l. not (has_arn webhook l)) config.lambda_configs)
            spec
            webhook) in
        spec.webhook_configuration ≡ some webhook
        → mc.get_bucket_notification w.outside spec.bucket_name ≡ ok config
        → (update mc w).0 ≡ ok tt
        → (call.0 ≡ ok tt) × ((update mc w).1.outside ≡ call.1)
  unfolding update
  update_runs w e r h = ground arith

  -- Delete where the configuration is read and the rest of it is written.
  delete_runs :
      (w : World S Notification) {config : Configuration Rest} {webhook : WebhookConfiguration}
      → let spec = w.resource.spec.for_provider in
        let call =
          mc.set_bucket_notification w.outside spec.bucket_name
            (record config { lambda_configs = without_ours webhook config.lambda_configs }) in
        spec.webhook_configuration ≡ some webhook
        → mc.get_bucket_notification w.outside spec.bucket_name ≡ ok config
        → call.0 ≡ ok tt
        → ((delete mc w).0 ≡ ok tt)
          × ((delete mc w).1.outside ≡ call.1)
          × ((delete mc w).1.events ≡ deleted_event ∷ w.events)
  unfolding delete
  delete_runs w e r s = ground arith

  observe_frame :
      (w : World S Notification)
      → ((observe mc w).1.outside ≡ w.outside)
        × ((observe mc w).1.resource.spec.for_provider ≡ w.resource.spec.for_provider)
  unfolding observe
  observe_frame w = ground arith

  -- So many rounds, each an Observe and a Create that succeeds.
  pub data Creations (w : World S Notification) : ℕ → World S Notification → Type 0 where
    start : Creations w zero w
    once_more :
        {n : ℕ} {w' : World S Notification} {c : Creation}
        → Creations w n w'
        → (create mc (observe mc w').1).0 ≡ ok c
        → Creations w (suc n) (create mc (observe mc w').1).1

  module _ (law : IsLawful mc) where
    -- After a write of entries and a new one behind them.
    appended-Has :
        (s s' : S) (spec : NotificationParameters) (config : Configuration Rest)
        (kept : List LambdaConfig) (webhook : WebhookConfiguration)
        → let call =
            mc.set_bucket_notification s spec.bucket_name (with_new config kept spec webhook) in
          call.0 ≡ ok tt
          → s' ≡ call.1
          → Has spec.bucket_name s' (map (λ l. l.lambda) kept ++ (webhook.endpoint ∷ []))
    unfolding new_lambda
    appended-Has s s' spec config kept webhook written after =
        let (read, r, same) =
          law.written_read s spec.bucket_name (with_new config kept spec webhook) written in
        (
          read,
          ap (λ t. mc.get_bucket_notification t spec.bucket_name) after ∙ r,
          same ∙ map-snoc kept (new_lambda mc spec webhook),
        )

    -- A successful Update that read the configuration leaves every entry where it was, also the older
    -- ones of the resource, and appends one.
    pub notification_update_appends :
        (w : World S Notification) {config : Configuration Rest} {webhook : WebhookConfiguration}
        → let bucket = w.resource.spec.for_provider.bucket_name in
          w.resource.spec.for_provider.webhook_configuration ≡ some webhook
          → mc.get_bucket_notification w.outside bucket ≡ ok config
          → (update mc w).0 ≡ ok tt
          → Has bucket (update mc w).1.outside (endpoints config ++ (webhook.endpoint ∷ []))
    notification_update_appends w {config} {webhook} e r h =
        let spec = w.resource.spec.for_provider in
        let (written, after) = update_runs w e r h in
        let (_, _, _, kept) =
          none_found webhook config.lambda_configs
            (law.reads w.outside spec.bucket_name config r) in
        let others = keep (λ l. not (has_arn webhook l)) config.lambda_configs in
        let (read, reads, same) =
          appended-Has w.outside (update mc w).1.outside spec config others webhook written after in
        (read, reads, same ∙ ap (λ xs. map (λ l. l.lambda) xs ++ (webhook.endpoint ∷ [])) kept)

    create-appends :
        (w : World S Notification) {config : Configuration Rest} {webhook : WebhookConfiguration}
        {c : Creation}
        → let bucket = w.resource.spec.for_provider.bucket_name in
          w.resource.spec.for_provider.webhook_configuration ≡ some webhook
          → mc.get_bucket_notification w.outside bucket ≡ ok config
          → (create mc w).0 ≡ ok c
          → ((create mc w).1.resource.spec.for_provider ≡ w.resource.spec.for_provider)
            × Has bucket (create mc w).1.outside (endpoints config ++ (webhook.endpoint ∷ []))
    create-appends w {config} {webhook} e r h =
        let spec = w.resource.spec.for_provider in
        let (_, none_ours, _, _) =
          none_found webhook config.lambda_configs
            (law.reads w.outside spec.bucket_name config r) in
        let (same, written, after) = create_runs w e r none_ours h in
        (
          same,
          appended-Has w.outside (create mc w).1.outside spec config config.lambda_configs webhook
              written after,
        )

    -- Each round in which the reconciler calls Create with success appends one more entry of the
    -- resource: after so many of them, from a state in which the configuration can be read, the
    -- endpoints of the bucket's entries are those from before and as many times that of the webhook.
    pub creations_pile_up :
        (w w' : World S Notification) (n : ℕ) {config : Configuration Rest}
        {webhook : WebhookConfiguration}
        → let bucket = w.resource.spec.for_provider.bucket_name in
          w.resource.spec.for_provider.webhook_configuration ≡ some webhook
          → mc.get_bucket_notification w.outside bucket ≡ ok config
          → Creations w n w'
          → Has bucket w'.outside (again n (endpoints config) webhook.endpoint)
    creations_pile_up w w' n {config} {webhook} e r run = (piled run).1
      where
        spec : NotificationParameters
        spec = w.resource.spec.for_provider

        piled :
            {n : ℕ} {w' : World S Notification}
            → Creations w n w'
            → (w'.resource.spec.for_provider ≡ spec)
              × Has spec.bucket_name w'.outside (again n (endpoints config) webhook.endpoint)
        piled start = (refl, (config, r, refl))
        piled (once_more {w' = v} before made) =
            let (same, (found, reads, has)) = piled before in
            let (still, kept) = observe_frame v in
            let now = kept ∙ same in
            let (after, (read, reads_after, grown)) =
              create-appends (observe mc v).1 {config = found} {webhook = webhook}
                (ap (λ p. p.webhook_configuration) now ∙ e)
                (ap
                    (λ t.
                      mc.get_bucket_notification t
                        (observe mc v).1.resource.spec.for_provider.bucket_name)
                    still
                  ∙ ap (λ p. mc.get_bucket_notification v.outside p.bucket_name) now
                  ∙ reads)
                made in
            (
              after ∙ now,
              (
                read,
                ap
                      (λ p.
                        mc.get_bucket_notification (create mc (observe mc v).1).1.outside
                          p.bucket_name)
                      (sym now)
                    ∙ reads_after,
                grown ∙ ap (λ xs. xs ++ (webhook.endpoint ∷ [])) has,
              ),
            )

    -- Where Delete reads the configuration, and its write succeeds, it returns no error and tells of the
    -- deletion; and every entry is still there, those of the resource among them.
    pub notification_delete_keeps :
        (w : World S Notification) {config : Configuration Rest} {webhook : WebhookConfiguration}
        → let bucket = w.resource.spec.for_provider.bucket_name in
          w.resource.spec.for_provider.webhook_configuration ≡ some webhook
          → mc.get_bucket_notification w.outside bucket ≡ ok config
          → (mc.set_bucket_notification w.outside bucket
              (record config { lambda_configs = without_ours webhook config.lambda_configs })).0
            ≡ ok tt
          → ((delete mc w).0 ≡ ok tt)
            × ((delete mc w).1.events ≡ deleted_event ∷ w.events)
            × Has bucket (delete mc w).1.outside (endpoints config)
    notification_delete_keeps w {config} {webhook} e r written =
        let bucket = w.resource.spec.for_provider.bucket_name in
        let left = record config { lambda_configs = without_ours webhook config.lambda_configs } in
        let (done, after, told) = delete_runs w e r written in
        let (_, _, whole, _) =
          none_found webhook config.lambda_configs (law.reads w.outside bucket config r) in
        let (read, reads, same) = law.written_read w.outside bucket left written in
        (
          done,
          told,
          (
            read,
            ap (λ t. mc.get_bucket_notification t bucket) after ∙ reads,
            same ∙ ap (λ xs. map (λ l. l.lambda) xs) whole,
          ),
        )
