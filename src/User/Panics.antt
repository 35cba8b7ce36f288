-- ===== src/User/Panics.antt =====
-- Where Observe of a User panics (operator/user/observe.go).
use provider_minio.Base.GoMap.{GoMap, lookup}
use provider_minio.Runtime.{ok, panic, World, Result-cases}
use provider_minio.Base.{
  Bool-cases, Option-cases, String, ◌≡◌, ◌≢◌, ◌↔◌, inl, inr, Bool, true, none, some, arith,
}
use provider_minio.Apis.User.{User, get_user_name}
use provider_minio.Client.Admin.{Admin, UserInfo}
use provider_minio.Client.Kube.{Kube, Url, Dial}
use provider_minio.User.Policies.{equal_policies}
use provider_minio.User.Observe.{
  observe, observe_created, compare_user, check_credentials, can_log_in, set_user_name, set_info,
}
use provider_minio.User.Ownership.{is_own}

module _ {S Pool Cert : Type 0} (admin : Admin S) (kube : Kube S) (dial : Dial S Pool Cert)
    (url : Url) (tls_settings : Bool) where
  -- A user of its own, which MinIO lists with the specified policies, on an object that is not being
  -- deleted and asks for no connection secret.
  abbrev pub IsSecretless : World S User → Type 0
  IsSecretless w =
      (is_own w.resource ≡ true)
      × (w.resource.meta.deletion_timestamp ≡ none)
      × (w.resource.spec.managed.write_connection_secret_to_reference ≡ none)
      × ((users : GoMap UserInfo) × (info : UserInfo) × (admin.list_users w.outside ≡ ok users)
          × (lookup (get_user_name w.resource) users ≡ some info)
          × (equal_policies info w.resource ≡ true))

  -- None of the calls panics that the trial of the credentials makes.
  pub record IsCalm (user : User) (s : S) : Type 0 where
    pub reads : (name : String) → kube.get_secret s user.meta.namespace name ≢ panic
    pub tries :
        (secret : GoMap String) → can_log_in admin kube dial url tls_settings secret s ≢ panic

  IsSecretless-panic :
      (w : World S User) → IsSecretless w → (observe admin kube dial url tls_settings w).0 ≡ panic
  unfolding observe
  IsSecretless-panic w (own, d, r, (users, info, l, f, e)) = ground arith

  -- The trial panics only without a reference to a secret, and not on an object that is being deleted.
  trial-panic :
      (user : User) (w : World S User)
      → IsCalm user w.outside
      → (check_credentials admin kube dial url tls_settings user w).0 ≡ panic
      → (user.meta.deletion_timestamp ≡ none)
        × (user.spec.managed.write_connection_secret_to_reference ≡ none)
  unfolding check_credentials
  trial-panic user w calm h = elim (Option-cases user.meta.deletion_timestamp) [
    | inr (t, d) ↦ absurd (ground arith)
    | inl d ↦ elim (Option-cases user.spec.managed.write_connection_secret_to_reference) [
      | inl r ↦ (d, r)
      | inr (name, r) ↦ elim (Result-cases (kube.get_secret w.outside user.meta.namespace name)) [
        | inr (inr k) ↦ absurd (calm.reads name k)
        | inr (inl (g, k)) ↦ absurd (ground arith)
        | inl (secret, k) ↦
            elim (Result-cases (can_log_in admin kube dial url tls_settings secret w.outside)) [
              | inr (inr c) ↦ absurd (calm.tries secret c)
              | inr (inl (g, c)) ↦ absurd (ground arith)
              | inl (b, c) ↦ absurd (ground arith)
            ]
      ]
    ]
  ]

  compare-panic :
      (user : User) (info : UserInfo) (w : World S User)
      → IsCalm user w.outside
      → (compare_user admin kube dial url tls_settings user info w).0 ≡ panic
      → (equal_policies info user ≡ true)
        × (user.meta.deletion_timestamp ≡ none)
        × (user.spec.managed.write_connection_secret_to_reference ≡ none)
  unfolding compare_user
  compare-panic user info w calm h = elim (Bool-cases (equal_policies info user)) [
    | inr e ↦ absurd (ground arith)
    | inl e ↦
        let (d, r) =
          trial-panic user (record w { resource = set_info info w.resource }) calm (ground arith) in
        (e, d, r)
  ]

  panic-IsSecretless :
      (w : World S User)
      → admin.list_users w.outside ≢ panic
      → IsCalm w.resource w.outside
      → (observe admin kube dial url tls_settings w).0 ≡ panic
      → IsSecretless w
  unfolding observe observe_created
  panic-IsSecretless w lists calm h = elim (Bool-cases (is_own w.resource)) [
    | inr foreign ↦ absurd (ground arith)
    | inl own ↦ elim (Result-cases (admin.list_users w.outside)) [
      | inr (inr l) ↦ absurd (lists l)
      | inr (inl (f, l)) ↦ absurd (ground arith)
      | inl (users, l) ↦ elim (Option-cases (lookup (get_user_name w.resource) users)) [
        | inl f ↦ absurd (ground arith)
        | inr (info, f) ↦
            let (e, d, r) =
              compare-panic w.resource info
                (record w { resource = set_user_name (get_user_name w.resource) w.resource }) calm
                (ground arith) in
            (own, d, r, (users, info, l, f, e))
      ]
    ]
  ]

  -- Where none of the calls panics that Observe makes, Observe panics exactly on a user of its own that
  -- MinIO lists with the specified policies, where the object is not being deleted and asks for no
  -- connection secret.
  pub observe-panic_iff :
      (w : World S User)
      → admin.list_users w.outside ≢ panic
      → IsCalm w.resource w.outside
      → ((observe admin kube dial url tls_settings w).0 ≡ panic) ↔ IsSecretless w
  observe-panic_iff w lists calm = (panic-IsSecretless w lists calm, IsSecretless-panic w)
