-- ===== src/User/Ownership.antt =====
-- Which users the controller takes for its own.
use provider_minio.Base.GoMap.{GoMap, has_key}
use provider_minio.Runtime.{
  errorf, Observation, no_observation, ok, err, World, Result-cases, has_annotation,
}
use provider_minio.Base.{is_empty, String, ◌≡◌, ◌↔◌, inl, inr, Bool, true, false, not, ◌||◌, arith}
use provider_minio.Apis.User.{User, get_user_name}
use provider_minio.Client.Admin.{Admin, UserInfo, Generate}
use provider_minio.Client.Kube.{Kube, Url, Dial}
use provider_minio.User.Policies.{user_created_annotation_key}
use provider_minio.User.Create.{create}
use provider_minio.User.Observe.{observe}

-- The annotation of Create or the status of an Observe says that the user is the object's own.
abbrev pub is_own : User → Bool
is_own user =
    has_annotation user_created_annotation_key user.meta
    || not (is_empty user.status.at_provider.user_name)

module _ {S Pool Cert : Type 0} (admin : Admin S) (kube : Kube S) (dial : Dial S Pool Cert)
    (url : Url) (tls_settings : Bool) where
  -- A user that MinIO has and that is not the object's own is left alone: Observe reports nothing
  -- and changes nothing, so that the runtime calls Create, and Create fails with no call that
  -- changes MinIO, leaving the object and the events as they are.
  pub foreign_user :
      (generate : Generate S) (w : World S User) (users : GoMap UserInfo) (key : String) (s : S)
      → is_own w.resource ≡ false
      → generate 64 5 0 false true w.outside ≡ (ok key, s)
      → admin.list_users s ≡ ok users
      → has_key (get_user_name w.resource) users ≡ true
      → (observe admin kube dial url tls_settings w ≡ (ok no_observation, w))
        × (create admin generate w ≡ (err (errorf "user already exists"), record w { outside = s }))
  unfolding observe create
  foreign_user generate w users key s own g l h = ground arith

  -- Where Observe returns an observation, it reports the user as existing exactly when it is the
  -- object's own and MinIO lists it.
  pub user_exists_iff :
      (w : World S User) {o : Observation}
      → (observe admin kube dial url tls_settings w).0 ≡ ok o
      → (o.resource_exists ≡ true) ↔ (
          (is_own w.resource ≡ true)
          × ((users : GoMap UserInfo) × (admin.list_users w.outside ≡ ok users)
              × (has_key (get_user_name w.resource) users ≡ true)))
  unfolding observe has_key
  user_exists_iff w h = elim (Result-cases (admin.list_users w.outside)) [
    | inl (users, l) ↦ (λ t. (ground arith, (users, l, ground arith)), λ t. ground arith)
    | inr (inl (e, l)) ↦ (λ t. ground arith, λ t. ground arith)
    | inr (inr l) ↦ (λ t. ground arith, λ t. ground arith)
  ]
