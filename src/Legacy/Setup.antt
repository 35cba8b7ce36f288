-- ===== src/Legacy/Setup.antt =====
-- The function `Setup` of internal/controller/user/user.go. The logger and the rate limiter are left out.
use provider_minio.Base.{ℕ, some, none, [], ◌∷◌}
use provider_minio.Runtime.{M, call}
use provider_minio.Apis.Register.{user_type, user_group_kind, user_group_version_kind}
use provider_minio.Client.Manager.{Manager}

-- `controller.Options` of crossplane-runtime, as far as it is read.
record Options : Type 0 where
  max_concurrent_reconciles : ℕ
  poll_interval : ℕ

unfoldable setup : {S R : Type 0} → Manager S → Options → M S R (Unit {0})
setup mgr o = call (λ s. mgr.add_controller s (record {
  name = mgr.managed_controller_name user_group_kind;
  kind = user_type;
  kinds = user_group_version_kind ∷ [];
  poll_interval = some o.poll_interval;
  creation_grace_period = none;
  max_concurrent_reconciles = some o.max_concurrent_reconciles;
}))
