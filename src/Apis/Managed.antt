-- ===== src/Apis/Managed.antt =====
-- `resource.Managed`: the dynamic type of a handler's argument, and the type assertion with which
-- every handler begins.
use provider_minio.Base.{Option, none, some}
use provider_minio.Runtime.{Error, M, err}
use provider_minio.Apis.Bucket.{Bucket}
use provider_minio.Apis.Policy.{Policy}
use provider_minio.Apis.User.{User}
use provider_minio.Apis.ServiceAccount.{ServiceAccount}
use provider_minio.Apis.Notification.{Notification}

-- `other` is any type that is none of this program's five.
pub data Managed : Type 0 where
  bucket : Bucket → Managed
  policy : Policy → Managed
  user : User → Managed
  service_account : ServiceAccount → Managed
  notification : Notification → Managed
  other : Managed

-- How a Go type sits in the interface.
pub record Kind (R : Type 0) : Type 0 where
  pub cast : Managed → Option R
  pub wrap : R → Managed

abbrev pub bucket_kind : Kind Bucket
bucket_kind = record { cast = elim [ bucket b ↦ some b | _ ↦ none ]; wrap = bucket }

abbrev pub policy_kind : Kind Policy
policy_kind = record { cast = elim [ policy p ↦ some p | _ ↦ none ]; wrap = policy }

abbrev pub user_kind : Kind User
user_kind = record { cast = elim [ user u ↦ some u | _ ↦ none ]; wrap = user }

abbrev pub service_account_kind : Kind ServiceAccount
service_account_kind = record {
  cast = elim [ service_account a ↦ some a | _ ↦ none ];
  wrap = service_account;
}

abbrev pub notification_kind : Kind Notification
notification_kind = record {
  cast = elim [ notification n ↦ some n | _ ↦ none ];
  wrap = notification;
}

-- `x, ok := mg.(*T); if !ok { return e }`, and then the handler on the object.
unfoldable pub narrow : {S R A : Type 0} → Kind R → Error → M S R A → M S Managed A
narrow kind e body w = elim (kind.cast w.resource) [
  | none ↦ (err e, w)
  | some r ↦
      let (result, w') = body (record { outside = w.outside; events = w.events; resource = r }) in
      (
        result,
        record { outside = w'.outside; events = w'.events; resource = kind.wrap w'.resource },
      )
]
