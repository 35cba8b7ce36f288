-- ===== src/ServiceAccount/Create.antt =====
-- operator/serviceaccount/create.go
use provider_minio.Runtime.{
  errorf, Creation, M, pure, ◌>>=◌, ◌>>◌, fail_if, query, call, get, modify, emit,
}
use provider_minio.Base.{
  if◌then◌else◌, is_empty, String, true, false, not, ◌&&◌, none, some, [], ◌∷◌,
}
use provider_minio.Apis.ServiceAccount.{ServiceAccount}
use provider_minio.Apis.Managed.{Managed, narrow, service_account_kind}
use provider_minio.Client.Admin.{Admin, AddServiceAccountReq, Credentials, Generate}
use provider_minio.ServiceAccount.Identity.{
  access_key_name, secret_key_name, err_not_service_account, set_external_name,
  service_account_exists,
}

-- The request; an empty policy is left out.
unfoldable pub add_request : ServiceAccount → String → AddServiceAccountReq
add_request account secret_key =
    let spec = account.spec.for_provider in
    record {
      policy = if is_empty spec.policy then none else some spec.policy;
      target_user = spec.target_user;
      access_key = spec.access_key;
      secret_key = secret_key;
      name = spec.name;
      description = spec.description;
      expiration = spec.expiration;
    }

-- The external name and the status of a created account.
unfoldable pub set_created : Credentials → ServiceAccount → ServiceAccount
set_created credentials a = record a {
  meta = set_external_name credentials.access_key a.meta;
  status = record (a.status) {
    at_provider = record (a.status.at_provider) { access_key = credentials.access_key };
  };
}

module _ {S : Type 0} (admin : Admin S) (generate : Generate S) where
  -- The secret key of the request: the specified one, or a generated one if there is an access key.
  unfoldable pub choose_secret_key : String → String → M S ServiceAccount String
  choose_secret_key access_key secret_key =
      if is_empty secret_key && not (is_empty access_key)
      then call (generate 64 5 0 false true)
      else pure secret_key

  -- An account with the specified access key must not exist.
  unfoldable pub refuse_existing : String → M S ServiceAccount (Unit {0})
  unfolding service_account_exists
  refuse_existing access_key =
      if is_empty access_key
      then pure tt
      else (query (service_account_exists admin access_key) >>= λ exists.
          fail_if exists (errorf "service account already exists"))

  -- `Create`, on a ServiceAccount.
  unfoldable pub create : M S ServiceAccount Creation
  unfolding refuse_existing add_request set_created
  create = do
    account ← get
    let access_key = account.spec.for_provider.access_key
    fail_if (is_empty access_key && not (is_empty account.spec.for_provider.secret_key))
        (errorf "access key must be specified if secret key is specified")
    secret_key ← choose_secret_key access_key account.spec.for_provider.secret_key
    refuse_existing access_key
    credentials ← call (λ s. admin.add_service_account s (add_request account secret_key))
    emit "Created" "Service Account successfully created"
    modify (set_created credentials)
    pure (record {
      connection_details =
          (access_key_name, credentials.access_key)
          ∷ (secret_key_name, credentials.secret_key)
          ∷ [];
    })

  unfoldable pub create_managed : M S Managed Creation
  unfolding narrow create
  create_managed = narrow service_account_kind err_not_service_account create
