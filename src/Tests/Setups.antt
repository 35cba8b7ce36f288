-- ===== src/Tests/Setups.antt =====
-- A manager that keeps the names of its controllers and the types of its webhooks.
use provider_minio.Runtime.{errorf, is_ok, ok, err, World, Result}
use provider_minio.Base.{
  if◌then◌else◌, member, ◌≡◌, refl, true, false, [], ◌∷◌, ◌++◌, String, List, arith, Bool, ◌<>◌,
}
use provider_minio.Client.Rbac.{RbacClient}
use provider_minio.Client.Manager.{Manager, ControllerSpec}
use provider_minio.Client.Host.{Host}
use provider_minio.Setup.Controllers.{setup_controllers, setup_v1beta1_service_account_controller}
use provider_minio.Setup.Names.{IsNaming, own_names, setup_controllers_once}
use provider_minio.Cmd.Main.{main}
use provider_minio.Cmd.Started.{IsHosting, own_webhooks, main_starts_all}

record Deployment : Type 0 where
  names : List String
  webhooks : List String
  started : Bool

abbrev add_controller : Deployment → ControllerSpec → Result (Unit {0}) × Deployment
add_controller s spec =
    if member spec.name s.names
    then (err (errorf "name taken"), s)
    else (ok tt, record s { names = spec.name ∷ s.names })

abbrev manager : Manager Deployment
manager = record {
  controller_name = λ group_kind. "providerconfig/" <> group_kind;
  managed_controller_name = λ group_kind. "managed/" <> group_kind;
  add_controller = add_controller;
  add_webhook = λ s kind. (ok tt, record s { webhooks = kind ∷ s.webhooks });
  add_healthz_check = λ s name. (ok tt, s);
  add_readyz_check = λ s name. (ok tt, s);
  start = λ s. (ok tt, record s { started = true });
}

abbrev naming : IsNaming manager
naming = record {
  names = λ s. s.names;
  added = λ s spec h. ground arith;
  taken = λ s spec h. ground arith;
}

abbrev empty : Deployment
empty = record { names = []; webhooks = []; started = false }

abbrev begin : World Deployment (Unit {0})
begin = record { outside = empty; events = []; resource = tt }

abbrev config_controller : String
config_controller = "providerconfig/ProviderConfig.minio.crossplane.io"

setup_controllers_once_example :
    let w' = (setup_controllers manager begin).1 in
    ((setup_controllers manager begin).0 ≡ ok tt)
    × (w'.outside.names ≡ own_names ++ config_controller ∷ [])
    × (is_ok (setup_controllers manager w').0 ≡ false)
    × ((setup_controllers manager w').1.outside.names ≡ w'.outside.names)
    × (is_ok (setup_v1beta1_service_account_controller manager w').0 ≡ false)
    × ((setup_v1beta1_service_account_controller manager w').1.outside.names ≡ w'.outside.names)
setup_controllers_once_example = setup_controllers_once manager naming begin refl refl

abbrev rbac : RbacClient Deployment
rbac = record {
  create_role = λ s r. (err (errorf "forbidden"), s);
  update_role = λ s r. (err (errorf "forbidden"), s);
  create_binding = λ s b. (err (errorf "forbidden"), s);
  update_binding = λ s b. (err (errorf "forbidden"), s);
  is_already_exists = λ e. false;
}

abbrev host : Host Deployment
host = record {
  parse_flags = ok (record {
    debug = false;
    sync_period = 3600;
    poll_interval = 60;
    leader_elect = false;
    max_reconcile_rate = 10;
    enable_management_policies = false;
  });
  getenv = λ name. "/certs";
  get_config = λ s. ok tt;
  add_kubernetes_types = λ s. ok tt;
  add_known_types = λ s group version types. s;
  new_manager = λ s options. (ok tt, empty);
}

hosting : IsHosting host rbac manager
hosting = record {
  naming = naming;
  webhooks = λ s. s.webhooks;
  new_manager_empty = λ s o h. (refl, refl);
  webhook_added = λ s kind h. (refl, refl);
  controller_frame = λ s spec. ground arith;
  create_role_frame = λ s r. (refl, refl);
  update_role_frame = λ s r. (refl, refl);
  create_binding_frame = λ s b. (refl, refl);
  update_binding_frame = λ s b. (refl, refl);
  healthz_frame = λ s name. (refl, refl);
  readyz_frame = λ s name. (refl, refl);
}

main_starts_all_example :
    (s : Deployment) × ((manager.start s).0 ≡ ok tt)
    × ((main host rbac manager begin).1.outside ≡ (manager.start s).1)
    × (s.names ≡ own_names ++ config_controller ∷ [])
    × (s.webhooks ≡ own_webhooks)
unfolding hosting main
main_starts_all_example = main_starts_all host rbac manager hosting (Unit {0}) begin refl refl
