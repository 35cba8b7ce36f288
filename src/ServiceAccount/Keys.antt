-- ===== src/ServiceAccount/Keys.antt =====
-- The keys of an account: what the webhook admits, what Create asks MinIO for, and by what key the
-- account is found again.
use provider_minio.Runtime.{
  Error, errorf, allowed, Event, Creation, Result, ok, err, World, no_name,
}
use provider_minio.Base.{
  ◌≢◌, len, is_empty, is_some, ◌≤◌, String, ◌≡◌, ◌↔◌, ◌⊎◌, true, false, Option, none, [], ◌∷◌,
  arith, eq_iff,
}
use provider_minio.Apis.ServiceAccount.{ServiceAccount, get_access_key}
use provider_minio.Client.Admin.{Admin, Credentials, Generate, InfoServiceAccountResp}
use provider_minio.ServiceAccount.Identity.{get_external_name, access_key_name, secret_key_name}
use provider_minio.ServiceAccount.Create.{create, choose_secret_key, add_request}
use provider_minio.ServiceAccount.Webhook.{validate_create, validate_update}

abbrev pub created_event : Event
created_event = record { reason = "Created"; message = "Service Account successfully created" }

-- What a successful Create returns and leaves: the credentials that MinIO gave for the request are
-- the connection details, and their access key is the external name and stands in the status.
pub record IsCreated {S : Type 0} (credentials : Credentials) (w w' : World S ServiceAccount)
    (c : Creation) : Type 0 where
  pub details :
      c.connection_details
      ≡ (access_key_name, credentials.access_key) ∷ (secret_key_name, credentials.secret_key) ∷ []
  pub named : get_external_name w'.resource.meta ≡ credentials.access_key
  pub shown : w'.resource.status.at_provider.access_key ≡ credentials.access_key
  pub told : w'.events ≡ created_event ∷ w.events
  pub same_spec : w'.resource.spec ≡ w.resource.spec

module _ {S : Type 0} (admin : Admin S) (generate : Generate S) where
  -- The choice of the secret key in a run of Create.
  abbrev pub choose : World S ServiceAccount → Result String × World S ServiceAccount
  choose w =
      choose_secret_key admin generate w.resource.spec.for_provider.access_key
        w.resource.spec.for_provider.secret_key w

  choose_frame :
      (w : World S ServiceAccount)
      → ((choose w).1.resource ≡ w.resource) × ((choose w).1.events ≡ w.events)
  unfolding choose_secret_key
  choose_frame w = ground arith

  -- The secret key of a request: none without an access key, and otherwise the specified one, or one
  -- that was generated where none is specified.
  abbrev pub IsSecretKey : World S ServiceAccount → String → Type 0
  IsSecretKey w secret_key =
      let spec = w.resource.spec.for_provider in
      ((spec.access_key ≡ "") × (secret_key ≡ ""))
      ⊎ ((spec.access_key ≢ "") × (spec.secret_key ≢ "") × (secret_key ≡ spec.secret_key))
      ⊎ ((spec.access_key ≢ "")
          × (spec.secret_key ≡ "")
          × ((generate 64 5 0 false true w.outside).0 ≡ ok secret_key))

  -- The call of AddServiceAccount in a run of Create with the secret key.
  abbrev add : World S ServiceAccount → String → Result Credentials × S
  add w secret_key =
      admin.add_service_account (choose w).1.outside (add_request w.resource secret_key)

  -- Where the access key of the specification is taken when Create has its secret key, Create fails
  -- without a call of AddServiceAccount, and the ServiceAccount and the events are as before.
  pub account_create_existing :
      (w : World S ServiceAccount) {secret_key : String} {info : InfoServiceAccountResp}
      → is_empty w.resource.spec.for_provider.access_key ≡ false
      → (choose w).0 ≡ ok secret_key
      → admin.info_service_account (choose w).1.outside w.resource.spec.for_provider.access_key
        ≡ ok info
      → let (r, w') = create admin generate w in
        (r ≡ err (errorf "service account already exists"))
        × (w'.outside ≡ (choose w).1.outside)
        × (w'.resource ≡ w.resource)
        × (w'.events ≡ w.events)
  unfolding create
  account_create_existing w named chosen taken = ground (arith, choose_frame w)

-- `ValidateCreate` admits a ServiceAccount exactly where it refers to a configuration, its policy is
-- empty or parses, its access key is empty or has 3 to 128 bytes, and its secret key is empty or has
-- at least 8 bytes.
account_admission_iff :
    (parse : String → Option Error) (account : ServiceAccount)
    → let spec = account.spec.for_provider in
      (validate_create parse account ≡ allowed) ↔ (
        (no_name account.spec.managed.provider_config_reference ≡ false)
        × ((spec.policy ≡ "") ⊎ (parse spec.policy ≡ none))
        × ((spec.access_key ≡ "") ⊎ ((3 ≤ len spec.access_key) × (len spec.access_key ≤ 128)))
        × ((spec.secret_key ≡ "") ⊎ (8 ≤ len spec.secret_key)))
unfolding validate_create
account_admission_iff parse account = ground (
  arith,
  eq_iff account.spec.for_provider.policy "",
  eq_iff account.spec.for_provider.access_key "",
  eq_iff account.spec.for_provider.secret_key "",
)

-- `ValidateUpdate` admits an update exactly where it keeps the access key, as it is given or taken
-- from the name, and the target user, and where it either is being deleted or refers to a
-- configuration and has a policy that is empty or parses.
account_change_iff :
    (parse : String → Option Error) (old new : ServiceAccount)
    → let spec = new.spec.for_provider in
      (validate_update parse old new ≡ allowed) ↔ (
        (get_access_key new ≡ get_access_key old)
        × (spec.target_user ≡ old.spec.for_provider.target_user)
        × ((is_some new.meta.deletion_timestamp ≡ true)
            ⊎ ((no_name new.spec.managed.provider_config_reference ≡ false)
                × ((spec.policy ≡ "") ⊎ (parse spec.policy ≡ none)))))
unfolding validate_update
account_change_iff parse old new = ground (
  arith,
  eq_iff (get_access_key new) (get_access_key old),
  eq_iff new.spec.for_provider.target_user old.spec.for_provider.target_user,
  eq_iff new.spec.for_provider.policy "",
)
