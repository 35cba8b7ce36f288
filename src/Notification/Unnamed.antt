-- ===== src/Notification/Unnamed.antt =====
-- What the handlers find of the entries that are read back. minio-go writes the ARN of an entry of
-- type Config nowhere (its field has the tag `xml:"-"`), so the entries that GetBucketNotification
-- returns have the empty ARN.
use provider_minio.Runtime.{Observation, no_observation, ok, World, Result-cases}
use provider_minio.Base.{
  Option-cases, Bool-cases, all, keep, len, ◌==◌, ◌<>◌, String, ◌≡◌, refl, ap, inl, inr, true,
  false, not, none, List, [], ◌∷◌, arith, eq_iff,
}
use provider_minio.Apis.Notification.{Notification, WebhookConfiguration}
use provider_minio.Client.S3.{LambdaConfig, Configuration, Notifications}
use provider_minio.Notification.Lambda.{expected_arn, has_arn, is_ours}
use provider_minio.Notification.Match.{find_lambda, find_webhook_configuration}
use provider_minio.Notification.Create.{has_ours}
use provider_minio.Notification.Delete.{without_ours}
use provider_minio.Notification.Observe.{observe}
use text.Mathlib.TextPositions.{len-append}

-- `Arn{}.String()`
abbrev pub unnamed : String
unnamed = "arn:::::"

-- What is relied on: every entry that is read has the empty ARN.
abbrev pub ReadsUnnamed : {S Rest : Type 0} → Notifications S Rest → Type 0
ReadsUnnamed {S} {Rest} mc =
    (s : S) (bucket : String) (config : Configuration Rest)
    → mc.get_bucket_notification s bucket ≡ ok config
    → all (λ l. l.arn == unnamed) config.lambda_configs ≡ true

expected_arn-named : (id : String) → (unnamed == expected_arn id) ≡ false
unfolding expected_arn
expected_arn-named id = elim (Bool-cases (unnamed == expected_arn id)) [
  | inl same ↦
      let e = ap len ((eq_iff unnamed (expected_arn id)).0 same) in
      absurd (omega (arith, e, len-append "arn:minio:sqs::" (id <> ":webhook")))
  | inr other ↦ other
]

unnamed-has_arn :
    (webhook : WebhookConfiguration) (l : LambdaConfig)
    → (l.arn == unnamed) ≡ true
    → has_arn webhook l ≡ false
unfolding has_arn
unnamed-has_arn webhook l u = ground (
  arith,
  eq_iff l.arn unnamed,
  eq_iff l.arn (expected_arn webhook.id),
  eq_iff unnamed (expected_arn webhook.id),
  expected_arn-named webhook.id,
)

module _ (webhook : WebhookConfiguration) where
  -- None of the entries is found, and none of them goes.
  pub none_found :
      (xs : List LambdaConfig)
      → all (λ l. l.arn == unnamed) xs ≡ true
      → (find_lambda webhook xs ≡ none)
        × (has_ours webhook xs ≡ false)
        × (without_ours webhook xs ≡ xs)
        × (keep (λ l. not (has_arn webhook l)) xs ≡ xs)
  unfolding find_lambda has_ours without_ours is_ours
  none_found [] h = (refl, refl, refl, refl)
  none_found (x ∷ xs) h =
      let (f, o, w, k) = none_found xs (ground arith) in
      let n = unnamed-has_arn webhook x (ground arith) in
      (ground arith, ground arith, ground arith, ground arith)

module _ {S Rest : Type 0} (mc : Notifications S Rest) (reads : ReadsUnnamed mc) where
  -- Whatever is in MinIO, and whatever was written there, an Observe that returns an observation
  -- reports that the resource does not exist.
  pub notification_never_found :
      (w : World S Notification) {o : Observation}
      → (observe mc w).0 ≡ ok o
      → (observe mc w).0 ≡ ok no_observation
  unfolding observe find_webhook_configuration
  notification_never_found w h =
      let spec = w.resource.spec.for_provider in
      elim (Result-cases (mc.get_bucket_notification w.outside spec.bucket_name)) [
        | inl (config, r) ↦ elim (Option-cases spec.webhook_configuration) [
          | inl n ↦ ground arith
          | inr (webhook, e) ↦
              let (f, _, _, _) =
                none_found webhook config.lambda_configs
                  (reads w.outside spec.bucket_name config r) in
              ground arith
        ]
        | inr (inl (e, r)) ↦ ground arith
        | inr (inr r) ↦ ground arith
      ]
