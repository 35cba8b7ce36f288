-- ===== src/User/Create.antt =====
-- operator/user/create.go
use provider_minio.Base.GoMap.{has_key, insert}
use provider_minio.Runtime.{
  errorf, Creation, ok, panic, M, pure, ◌>>=◌, ◌>>◌, fail_if, query, call, get, emit,
}
use provider_minio.Base.{String, Bool, true, false, none, some, [], ◌∷◌}
use provider_minio.Apis.User.{User, get_user_name}
use provider_minio.Apis.Managed.{Managed, narrow, user_kind}
use provider_minio.Client.Admin.{Admin, Generate}
use provider_minio.User.Policies.{
  err_not_user, user_created_annotation_key, access_key_name, secret_key_name, set_user_policies,
}

-- The annotation is written into the map as it is, so that a nil map panics.
unfoldable pub set_created : {S : Type 0} → M S User (Unit {0})
set_created w = elim w.resource.meta.annotations [
  | none ↦ (panic, w)
  | some a ↦ (
    ok tt,
    record w {
      resource = record (w.resource) {
        meta = record (w.resource.meta) {
          annotations = some (insert user_created_annotation_key "true" a);
        };
      };
    },
  )
]

module _ {S : Type 0} (admin : Admin S) where
  -- `userExists`
  unfoldable pub user_exists : String → M S User Bool
  user_exists name = do users ← query admin.list_users; pure (has_key name users)

  module _ (generate : Generate S) where
    -- `Create`, on a User.
    unfoldable pub create : M S User Creation
    unfolding user_exists set_user_policies set_created
    create = do
      user ← get
      secret_key ← call (generate 64 5 0 false true)
      exists ← user_exists (get_user_name user)
      fail_if exists (errorf "user already exists")
      call (λ s. admin.add_user s (get_user_name user) secret_key)
      set_user_policies admin (get_user_name user) user.spec.for_provider.policies
      emit "Created" "User successfully created"
      set_created
      pure (record {
        connection_details =
            (secret_key_name, secret_key) ∷ (access_key_name, get_user_name user) ∷ [];
      })

    unfoldable pub create_managed : M S Managed Creation
    unfolding narrow create
    create_managed = narrow user_kind err_not_user create
