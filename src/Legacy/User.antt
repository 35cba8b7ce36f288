-- ===== src/Legacy/User.antt =====
-- internal/controller/user/user.go, but for Setup. The spans of the traces are left out.
use provider_minio.Runtime.{
  wrapping, Error, errorf, wrap, error_text, Observation, no_observation, Creation, Result, ok, err,
  panic, M, pure, fail, crash, ◌>>=◌, ◌>>◌, query, attempt, call, attempt_call, get, modify,
}
use provider_minio.Base.{
  if◌then◌else◌, nat_eq, is_empty, length, all, is_nil, member, contains, String, ◌<>◌, Bool, true,
  ◌&&◌, none, some, List, [], ◌∷◌,
}
use provider_minio.Apis.User.{User, get_user_name}
use provider_minio.Apis.Managed.{Managed, narrow, user_kind}
use provider_minio.Client.Admin.{Admin, UserInfo}
use provider_minio.Client.Kube.{Kube, Endpoint, Dial}
use provider_minio.Minio.Connect.{get_provider_config}
use provider_minio.Legacy.Config.{Config, get_config, new_min_io_client}
use provider_minio.User.Policies.{policy_names}

abbrev pub err_not_user : Error
err_not_user = errorf "managed resource is not a User custom resource"

-- The placeholder that every user gets.
abbrev pub password : String
password = "MinIOUser2024!"

-- `strings.Contains(err.Error(), "does not exist")`
unfoldable pub is_missing : Error → Bool
is_missing e = contains (error_text e) "does not exist"

-- The loops over the desired and the current policies, of which there is at most one: the text that
-- MinIO gives, unless it is empty.
unfoldable pub policies_match : List String → String → Bool
policies_match desired policy_name =
    let current = if is_empty policy_name then [] else policy_name ∷ [] in
    nat_eq (length desired) (length current) && all (λ d. member d current) desired

-- The status of a user that exists.
unfoldable pub set_status : UserInfo → User → User
set_status info u = record u {
  status = record (u.status) {
    at_provider = record {
      user_name = get_user_name u;
      status = info.status;
      policies = info.policy_name;
    };
  };
}

module _ {S : Type 0} (admin : Admin S) where
  -- The policies are attached one by one.
  unfoldable pub attach_each : String → List String → M S User (Unit {0})
  attach_each user_name [] = pure tt
  attach_each user_name (policy ∷ policies) = do
    attached ← attempt_call (λ s. admin.attach_policy s (policy ∷ []) user_name)
    elim attached [
      | ok _ ↦ attach_each user_name policies
      | err e ↦ fail (wrap ("cannot attach policy " <> (policy <> " to user")) e)
      | panic ↦ crash
    ]

  -- The text that MinIO gives is detached as one policy.
  unfoldable pub detach_all : String → String → M S User (Unit {0})
  detach_all user_name policy_name =
      if is_empty policy_name
      then pure tt
      else (attempt_call (λ s. admin.detach_policy s (policy_name ∷ []) user_name) >>= elim [
        | ok _ ↦ pure tt
        | err e ↦ fail (wrap ("cannot detach policy " <> (policy_name <> " from user")) e)
        | panic ↦ crash
      ])

  unfoldable pub observe : M S User Observation
  unfolding is_missing policies_match set_status
  observe = do
    cr ← get
    info ← attempt (λ s. admin.get_user_info s (get_user_name cr))
    elim info [
      | ok info ↦ do
        modify (set_status info)
        pure (record {
          resource_exists = true;
          resource_up_to_date =
              policies_match (policy_names cr.spec.for_provider.policies) info.policy_name;
        })
      | err e ↦ if is_missing e then pure no_observation else fail (wrap "cannot get user" e)
      | panic ↦ crash
    ]

  unfoldable pub create : M S User Creation
  unfolding attach_each
  create = do
    cr ← get
    added ← attempt_call (λ s. admin.add_user s (get_user_name cr) password)
    elim added [
      | ok _ ↦ do
        attach_each (get_user_name cr) (policy_names cr.spec.for_provider.policies)
        pure (record {
          connection_details = ("username", get_user_name cr) ∷ ("password", password) ∷ [];
        })
      | err e ↦ fail (wrap "cannot create user" e)
      | panic ↦ crash
    ]

  unfoldable pub replace_policies : User → M S User (Unit {0})
  unfolding attach_each detach_all
  replace_policies cr = do
    info ← attempt (λ s. admin.get_user_info s (get_user_name cr))
    elim info [
      | ok info ↦ do
        detach_all (get_user_name cr) info.policy_name
        attach_each (get_user_name cr) (policy_names cr.spec.for_provider.policies)
      | err e ↦ fail (wrap "cannot get current user info" e)
      | panic ↦ crash
    ]

  unfoldable pub update : M S User (Unit {0})
  unfolding replace_policies
  update = do
    cr ← get
    if is_nil (policy_names cr.spec.for_provider.policies) then pure tt else replace_policies cr

  unfoldable pub delete : M S User (Unit {0})
  unfolding is_missing
  delete = do
    cr ← get
    removed ← attempt_call (λ s. admin.remove_user s (get_user_name cr))
    elim removed [
      | ok _ ↦ pure tt
      | err e ↦ if is_missing e then pure tt else fail (wrap "cannot delete user" e)
      | panic ↦ crash
    ]

  unfoldable pub observe_managed : M S Managed Observation
  unfolding narrow observe
  observe_managed = narrow user_kind err_not_user observe

  unfoldable pub create_managed : M S Managed Creation
  unfolding narrow create
  create_managed = narrow user_kind err_not_user create

  unfoldable pub update_managed : M S Managed (Unit {0})
  unfolding narrow update
  update_managed = narrow user_kind err_not_user update

  unfoldable pub delete_managed : M S Managed (Unit {0})
  unfolding narrow delete
  delete_managed = narrow user_kind err_not_user delete

module _ {S Pool Cert : Type 0} (kube : Kube S) (dial : Dial S Pool Cert)
    (unmarshal : String → Result Config) where
  -- `Connect`
  unfoldable pub connect : M S Managed (Endpoint Pool Cert)
  unfolding get_provider_config get_config new_min_io_client
  connect = do
    mg ← get
    elim (user_kind.cast mg) [
      | none ↦ fail err_not_user
      | some cr ↦ do
        call (λ s.
            let (tracked, t) = kube.track s mg in
            (wrapping "cannot track ProviderConfig usage" tracked, t))
        pc ←
            query (λ s.
              wrapping "cannot get ProviderConfig" (get_provider_config kube cr.spec.managed s))
        cfg ← query (λ s. wrapping "cannot get credentials" (get_config kube unmarshal pc s))
        query (λ _. wrapping "cannot create new MinIO client" (new_min_io_client dial cfg))
    ]
