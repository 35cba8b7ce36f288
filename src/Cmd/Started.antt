-- ===== src/Cmd/Started.antt =====
-- What is on the manager when `main` starts it.
use provider_minio.Runtime.{Result, ok, World, M, Result-cases, ◌>>◌}
use provider_minio.Base.{member, String, ◌≡◌, inl, inr, false, List, [], ◌∷◌, ◌++◌, arith}
use provider_minio.Apis.Register.{
  bucket_type, user_type, policy_type, service_account_type, notification_configuration_type,
}
use provider_minio.Client.Rbac.{ClusterRole, ClusterRoleBinding, RbacClient}
use provider_minio.Client.Manager.{Manager, ControllerSpec}
use provider_minio.Client.Host.{Host, Flags, ManagerOptions}
use provider_minio.Cmd.Rbac.{
  create_or_have, try_call, setup_rbac, system_role, system_binding, edit_role, view_role,
}
use provider_minio.Cmd.Scheme.{add_to_scheme}
use provider_minio.Cmd.Main.{manager_options, prepare, main}
use provider_minio.Setup.Controllers.{setup_controllers, setup_webhooks}
use provider_minio.Setup.Names.{IsNaming, own_names, config_name, setup_controllers_once}

-- The webhooks of the five types, the last one first.
abbrev pub own_webhooks : List String
own_webhooks =
    notification_configuration_type ∷ service_account_type ∷ policy_type ∷ user_type ∷ bucket_type
    ∷ []

-- What is relied on: a new manager is empty, a webhook that was added is there, and the calls on roles
-- and the checks leave controllers and webhooks alone, as these leave each other.
pub record IsHosting {S : Type 0} (host : Host S) (rbac : RbacClient S) (mgr : Manager S)
    : Type 0 where
  pub naming : IsNaming mgr
  pub webhooks : S → List String
  pub new_manager_empty :
      (s : S) (o : ManagerOptions)
      → (host.new_manager s o).0 ≡ ok tt
      → (naming.names (host.new_manager s o).1 ≡ []) × (webhooks (host.new_manager s o).1 ≡ [])
  pub webhook_added :
      (s : S) (kind : String)
      → (mgr.add_webhook s kind).0 ≡ ok tt
      → (webhooks (mgr.add_webhook s kind).1 ≡ kind ∷ webhooks s)
        × (naming.names (mgr.add_webhook s kind).1 ≡ naming.names s)
  pub controller_frame :
      (s : S) (spec : ControllerSpec) → webhooks (mgr.add_controller s spec).1 ≡ webhooks s
  pub create_role_frame :
      (s : S) (r : ClusterRole)
      → (naming.names (rbac.create_role s r).1 ≡ naming.names s)
        × (webhooks (rbac.create_role s r).1 ≡ webhooks s)
  pub update_role_frame :
      (s : S) (r : ClusterRole)
      → (naming.names (rbac.update_role s r).1 ≡ naming.names s)
        × (webhooks (rbac.update_role s r).1 ≡ webhooks s)
  pub create_binding_frame :
      (s : S) (b : ClusterRoleBinding)
      → (naming.names (rbac.create_binding s b).1 ≡ naming.names s)
        × (webhooks (rbac.create_binding s b).1 ≡ webhooks s)
  pub update_binding_frame :
      (s : S) (b : ClusterRoleBinding)
      → (naming.names (rbac.update_binding s b).1 ≡ naming.names s)
        × (webhooks (rbac.update_binding s b).1 ≡ webhooks s)
  pub healthz_frame :
      (s : S) (name : String)
      → (naming.names (mgr.add_healthz_check s name).1 ≡ naming.names s)
        × (webhooks (mgr.add_healthz_check s name).1 ≡ webhooks s)
  pub readyz_frame :
      (s : S) (name : String)
      → (naming.names (mgr.add_readyz_check s name).1 ≡ naming.names s)
        × (webhooks (mgr.add_readyz_check s name).1 ≡ webhooks s)

module _ {S : Type 0} (host : Host S) (rbac : RbacClient S) (mgr : Manager S)
    (law : IsHosting host rbac mgr) where
  -- Nothing has changed on the manager.
  abbrev IsSame : S → S → Type 0
  IsSame s t = (law.naming.names t ≡ law.naming.names s) × (law.webhooks t ≡ law.webhooks s)

  module _ (R : Type 0) where
    -- A handler that leaves the manager as it is.
    abbrev Leaves : M S R (Unit {0}) → Type 0
    Leaves m = (w : World S R) → IsSame w.outside (m w).1.outside

    abbrev Leaving : Type 0
    Leaving = (m : M S R (Unit {0})) × Leaves m

    after : Leaving → Leaving → Leaving
    after (m, p) (k, q) = (m >> k, λ w. ground (arith, p w, q (m w).1))

    needed : (f : S → Result (Unit {0}) × S) → ((s : S) → IsSame s (f s).1) → Leaving
    unfolding create_or_have
    needed f same = (create_or_have rbac f, λ w. ground (arith, same w.outside))

    tried : (f : S → Result (Unit {0}) × S) → ((s : S) → IsSame s (f s).1) → Leaving
    unfolding try_call
    tried f same = (try_call rbac f, λ w. ground (arith, same w.outside))

    updated : ClusterRole → Leaving
    unfolding tried
    updated r = tried (λ s. rbac.update_role s r) (λ s. law.update_role_frame s r)

    created : ClusterRole → Leaving
    unfolding tried
    created r = tried (λ s. rbac.create_role s r) (λ s. law.create_role_frame s r)

    setup_rbac-Leaves : Leaves (setup_rbac rbac)
    unfolding setup_rbac after created updated needed tried
    setup_rbac-Leaves =
        let system =
          needed (λ s. rbac.create_role s system_role) (λ s. law.create_role_frame s system_role) in
        let binding =
          needed (λ s. rbac.create_binding s system_binding)
            (λ s. law.create_binding_frame s system_binding) in
        let bound =
          tried (λ s. rbac.update_binding s system_binding)
            (λ s. law.update_binding_frame s system_binding) in
        let rest =
          after (created edit_role)
            (after (updated edit_role) (after (created view_role) (updated view_role))) in
        (after system (after (updated system_role) (after binding (after bound rest)))).1

    setup_controllers_webhooks :
        (w : World S R) → law.webhooks (setup_controllers mgr w).1.outside ≡ law.webhooks w.outside
    unfolding setup_controllers
    setup_controllers_webhooks w = grind (arith, law.controller_frame)

    setup_webhooks_added :
        (w : World S R)
        → (setup_webhooks mgr w).0 ≡ ok tt
        → law.webhooks w.outside ≡ []
        → (law.webhooks (setup_webhooks mgr w).1.outside ≡ own_webhooks)
          × (law.naming.names (setup_webhooks mgr w).1.outside ≡ law.naming.names w.outside)
    unfolding setup_webhooks
    setup_webhooks_added w h empty = grind (arith, law.webhook_added)

    prepared :
        (flags : Flags) (w : World S R)
        → member (config_name mgr law.naming) own_names ≡ false
        → (prepare host rbac mgr flags w).0 ≡ ok tt
        → let s = (prepare host rbac mgr flags w).1.outside in
          (law.naming.names s ≡ own_names ++ config_name mgr law.naming ∷ [])
          × (law.webhooks s ≡ own_webhooks)
    unfolding prepare
    prepared flags w apart h =
        let options = manager_options flags (host.getenv "WEBHOOK_TLS_CERT_DIR") in
        let w₁ : World S R = record w { outside = (host.new_manager w.outside options).1 } in
        let w₂ = (setup_rbac rbac w₁).1 in
        let w₃ = (setup_controllers mgr w₂).1 in
        let w₄ = (setup_webhooks mgr w₃).1 in
        let s₅ = (mgr.add_healthz_check w₄.outside "healthz").1 in
        ground (
          arith,
          law.new_manager_empty w.outside options,
          setup_rbac-Leaves w₁,
          setup_controllers_once mgr law.naming w₂,
          setup_controllers_webhooks w₂,
          setup_webhooks_added w₃,
          law.healthz_frame w₄.outside "healthz",
          law.readyz_frame s₅ "readyz",
        )

    -- Where main returns, it has started the manager in a state in which the six controllers and the
    -- five webhooks are on it, each once; where the name of the controller of provider configurations
    -- is none of the other five. Errors of the roles' set-up do not keep it from that.
    pub main_starts_all :
        (w : World S R)
        → member (config_name mgr law.naming) own_names ≡ false
        → (main host rbac mgr w).0 ≡ ok tt
        → (s : S) × ((mgr.start s).0 ≡ ok tt)
          × ((main host rbac mgr w).1.outside ≡ (mgr.start s).1)
          × (law.naming.names s ≡ own_names ++ config_name mgr law.naming ∷ [])
          × (law.webhooks s ≡ own_webhooks)
    unfolding main add_to_scheme
    main_starts_all w apart h =
        let registered = (add_to_scheme host w).1 in
        elim (Result-cases host.parse_flags) [
          | inl (flags, parsed) ↦ (
            (prepare host rbac mgr flags registered).1.outside,
            ground arith,
            ground arith,
            ground (arith, prepared flags registered),
            ground (arith, prepared flags registered),
          )
          | inr (inl (e, failed)) ↦ absurd (ground arith)
          | inr (inr crashed) ↦ absurd (ground arith)
        ]
