-- ===== src/Cmd/Main.antt =====
-- `main` of cmd/provider/main.go, up to the start of the manager. The logger and the tracing are left
-- out, and the controller options that `main` makes from the poll interval, the rate and the management
-- policies, since it hands them to nobody.
use provider_minio.Runtime.{wrapping, ok, err, panic, M, ◌>>=◌, ◌>>◌, query, call}
use provider_minio.Base.{String}
use provider_minio.Client.Rbac.{RbacClient}
use provider_minio.Client.Manager.{Manager}
use provider_minio.Client.Host.{Host, Flags, ManagerOptions}
use provider_minio.Cmd.Rbac.{setup_rbac}
use provider_minio.Cmd.Scheme.{add_to_scheme}
use provider_minio.Setup.Controllers.{setup_controllers, setup_webhooks}

module _ {S R : Type 0} where
  -- `kingpin.FatalIfError(err, message)`, which ends the process.
  unfoldable pub or_exit : String → M S R (Unit {0}) → M S R (Unit {0})
  or_exit message m w = let (r, w') = m w in (wrapping message r, w')

  -- An error that is logged.
  unfoldable pub or_warn : M S R (Unit {0}) → M S R (Unit {0})
  or_warn m w = let (r, w') = m w in (elim r [ ok _ ↦ ok tt | err _ ↦ ok tt | panic ↦ panic ], w')

unfoldable pub manager_options : Flags → String → ManagerOptions
manager_options flags cert_dir = record {
  leader_election = flags.leader_elect;
  leader_election_id = "crossplane-leader-election-provider-minio";
  sync_period = flags.sync_period;
  lease_duration = 60;
  renew_deadline = 50;
  webhook_port = 9443;
  webhook_cert_dir = cert_dir;
}

module _ {S R : Type 0} (host : Host S) (rbac : RbacClient S) (mgr : Manager S) where
  -- What `main` does on the manager before it starts it.
  unfoldable pub prepare : Flags → M S R (Unit {0})
  unfolding or_exit or_warn manager_options setup_rbac setup_controllers setup_webhooks
  prepare flags = do
    or_exit "Cannot create controller manager" (
        call (λ s. host.new_manager s (manager_options flags (host.getenv "WEBHOOK_TLS_CERT_DIR"))))
    or_warn (setup_rbac rbac)
    or_exit "Cannot setup MinIO controllers" (setup_controllers mgr)
    or_exit "Cannot setup MinIO webhooks" (setup_webhooks mgr)
    or_exit "Cannot add health check" (call (λ s. mgr.add_healthz_check s "healthz"))
    or_exit "Cannot add ready check" (call (λ s. mgr.add_readyz_check s "readyz"))

  -- `main`
  unfoldable pub main : M S R (Unit {0})
  unfolding or_exit prepare add_to_scheme
  main = do
    flags ← query (λ _. host.parse_flags)
    or_exit "Cannot get API server rest config" (query host.get_config)
    or_exit "Cannot add k8s types to scheme" (query host.add_kubernetes_types)
    or_exit "Cannot add MinIO APIs to scheme" (add_to_scheme host)
    prepare flags
    or_exit "Cannot start controller manager" (call mgr.start)
