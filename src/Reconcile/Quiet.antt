-- ===== src/Reconcile/Quiet.antt =====
-- What the Observe of each of the five controllers leaves as it is, and finds again.
use provider_minio.Base.{is_empty, refl, Bool, true, not, arith}
use provider_minio.Bucket
use provider_minio.Policy
use provider_minio.User
use provider_minio.ServiceAccount
use provider_minio.Notification
use provider_minio.Apis.Bucket.{get_bucket_name}
use provider_minio.Apis.User.{get_user_name}
use provider_minio.Client.S3.{S3, Notifications}
use provider_minio.Client.Admin.{Admin}
use provider_minio.Client.Iam.{Iam}
use provider_minio.Client.Kube.{Kube, Url, Dial}
use provider_minio.Reconcile.Rounds.{IsQuiet}

module _ {S : Type 0} where
  pub bucket-IsQuiet : (s3 : S3 S) → IsQuiet (λ b. true) (Bucket.Observe.observe s3)
  unfolding Bucket.Observe.observe get_bucket_name
  bucket-IsQuiet s3 = record {
    same_outside = λ w. ground arith;
    same_events = λ w. ground arith;
    same_fit = λ w. refl;
    again = λ w f h. ground arith;
  }

  pub policy-IsQuiet :
      {P : Type 0} (admin : Admin S) (iam : Iam P)
      → IsQuiet (λ p. true) (Policy.Observe.observe admin iam)
  unfolding Policy.Observe.observe
  policy-IsQuiet admin iam = record {
    same_outside = λ w. ground arith;
    same_events = λ w. ground arith;
    same_fit = λ w. refl;
    again = λ w f h. ground arith;
  }

  pub service_account-IsQuiet :
      (admin : Admin S) → IsQuiet (λ a. true) (ServiceAccount.Observe.observe admin)
  unfolding ServiceAccount.Observe.observe
  service_account-IsQuiet admin = record {
    same_outside = λ w. ground arith;
    same_events = λ w. ground arith;
    same_fit = λ w. refl;
    again = λ w f h. ground arith;
  }

  pub notification-IsQuiet :
      {Rest : Type 0} (mc : Notifications S Rest)
      → IsQuiet (λ n. true) (Notification.Observe.observe mc)
  unfolding Notification.Observe.observe
  notification-IsQuiet mc = record {
    same_outside = λ w. ground arith;
    same_events = λ w. ground arith;
    same_fit = λ w. refl;
    again = λ w f h. ground arith;
  }

  pub user-IsQuiet :
      {Pool Cert : Type 0} (admin : Admin S) (kube : Kube S) (dial : Dial S Pool Cert) (url : Url)
      (tls_settings : Bool)
      → IsQuiet
          (λ u. not (is_empty (get_user_name u)))
          (User.Observe.observe admin kube dial url tls_settings)
  unfolding User.Observe.observe get_user_name
  user-IsQuiet admin kube dial url tls_settings = record {
    same_outside = λ w. ground arith;
    same_events = λ w. ground arith;
    same_fit = λ w. ground arith;
    again = λ w f h. ground arith;
  }
