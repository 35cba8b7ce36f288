-- ===== src/Setup/Names.antt =====
-- The names under which the controllers are added to the manager.
use provider_minio.Runtime.{is_ok, ok, World, M, call}
use provider_minio.Base.{
  ◌==◌, member, String, ◌≡◌, refl, ap, ◌∙◌, Bool, true, false, not, ◌&&◌, none, List, [], ◌∷◌, ◌++◌,
  map, arith, eq_iff, eq_refl,
}
use provider_minio.Apis.Register.{
  provider_config_group_version_kind, provider_config_usage_group_version_kind,
  provider_config_usage_list_group_version_kind, bucket_group_version_kind, user_group_version_kind,
  policy_group_version_kind, service_account_group_version_kind,
  notification_configuration_group_version_kind, bucket_type, user_type, policy_type,
  service_account_type, notification_configuration_type, provider_config_type,
  provider_config_group_kind,
}
use provider_minio.Client.Manager.{Manager, ControllerSpec}
use provider_minio.Setup.Controllers.{
  each, reconciler, setup_controllers, setup_v1beta1_service_account_controller,
}

-- What is relied on: a manager takes a controller exactly where its name is not taken, and keeps the
-- names of its controllers.
pub record IsNaming {S : Type 0} (mgr : Manager S) : Type 0 where
  pub names : S → List String
  pub added :
      (s : S) (spec : ControllerSpec)
      → member spec.name (names s) ≡ false
      → ((mgr.add_controller s spec).0 ≡ ok tt)
        × (names (mgr.add_controller s spec).1 ≡ spec.name ∷ names s)
  pub taken :
      (s : S) (spec : ControllerSpec)
      → member spec.name (names s) ≡ true
      → (is_ok (mgr.add_controller s spec).0 ≡ false)
        × (names (mgr.add_controller s spec).1 ≡ names s)

-- The names of the five controllers, the last one first.
abbrev pub own_names : List String
own_names =
    "notificationconfiguration.minio.m.crossplane.io" ∷ "serviceaccount.minio.m.crossplane.io"
    ∷ "policy.minio.m.crossplane.io" ∷ "user.minio.m.crossplane.io" ∷ "bucket.minio.m.crossplane.io"
    ∷ []

-- No name is taken before or used twice.
abbrev fresh : List ControllerSpec → List String → Bool
fresh [] taken = true
fresh (spec ∷ specs) taken = not (member spec.name taken) && fresh specs (spec.name ∷ taken)

abbrev after : List ControllerSpec → List String → List String
after [] taken = taken
after (spec ∷ specs) taken = after specs (spec.name ∷ taken)

abbrev config_spec : String → ControllerSpec
config_spec config_name = record {
  name = config_name;
  kind = provider_config_type;
  kinds =
      provider_config_group_version_kind ∷ provider_config_usage_group_version_kind
      ∷ provider_config_usage_list_group_version_kind ∷ [];
  poll_interval = none;
  creation_grace_period = none;
  max_concurrent_reconciles = none;
}

abbrev own_specs : List ControllerSpec
own_specs =
    reconciler bucket_type bucket_group_version_kind "bucket.minio.m.crossplane.io" 0
    ∷ reconciler user_type user_group_version_kind "user.minio.m.crossplane.io" 0
    ∷ reconciler policy_type policy_group_version_kind "policy.minio.m.crossplane.io" 0
    ∷ reconciler service_account_type service_account_group_version_kind
        "serviceaccount.minio.m.crossplane.io" 0
    ∷ reconciler notification_configuration_type notification_configuration_group_version_kind
        "notificationconfiguration.minio.m.crossplane.io" 0
    ∷ []

-- The controllers in their order, with the name of the first.
abbrev specs_of : String → List ControllerSpec
specs_of config_name = config_spec config_name ∷ own_specs

==_comm : (s t : String) → (s == t) ≡ (t == s)
==_comm s t = ground (arith, eq_iff s t, eq_iff t s)

specs-fresh :
    (config_name : String)
    → member config_name own_names ≡ false
    → fresh (specs_of config_name) [] ≡ true
unfolding reconciler
specs-fresh config_name apart = ground (
  arith,
  ==_comm config_name "bucket.minio.m.crossplane.io",
  ==_comm config_name "user.minio.m.crossplane.io",
  ==_comm config_name "policy.minio.m.crossplane.io",
  ==_comm config_name "serviceaccount.minio.m.crossplane.io",
  ==_comm config_name "notificationconfiguration.minio.m.crossplane.io",
)

module _ {S : Type 0} (mgr : Manager S) (law : IsNaming mgr) where
  abbrev pub config_name : String
  config_name = mgr.controller_name provider_config_group_kind

  module _ {R : Type 0} where
    abbrev add : ControllerSpec → M S R (Unit {0})
    add spec = call (λ s. mgr.add_controller s spec)

    each_added :
        (specs : List ControllerSpec) (w : World S R)
        → fresh specs (law.names w.outside) ≡ true
        → let (r, w') = each (map add specs) w in
          (r ≡ ok tt) × (law.names w'.outside ≡ after specs (law.names w.outside))
    unfolding each
    each_added [] w h = (refl, refl)
    each_added (spec ∷ specs) w h =
        let (done, named) = law.added w.outside spec (ground arith) in
        let rest = each_added specs (add spec w).1 in ground (arith, done, named, rest)

    each_taken :
        (spec : ControllerSpec) (specs : List ControllerSpec) (w : World S R)
        → member spec.name (law.names w.outside) ≡ true
        → let (r, w') = each (map add (spec ∷ specs)) w in
          (is_ok r ≡ false) × (law.names w'.outside ≡ law.names w.outside)
    unfolding each
    each_taken spec specs w h = ground (arith, law.taken w.outside spec)

    setup-each : setup_controllers {R = R} mgr ≡ each (map add (specs_of config_name))
    unfolding setup_controllers reconciler
    setup-each = refl

    -- On a manager without controllers, where the name of the controller of provider configurations is
    -- none of the other five, SetupControllers adds six controllers under six names and succeeds. A
    -- second SetupControllers fails and adds none, and so does SetupV1Beta1Controller of the service
    -- accounts, which asks for a name that is taken.
    pub setup_controllers_once :
        (w : World S R)
        → law.names w.outside ≡ []
        → member config_name own_names ≡ false
        → let (r, w') = setup_controllers mgr w in
          (r ≡ ok tt)
          × (law.names w'.outside ≡ own_names ++ config_name ∷ [])
          × (is_ok (setup_controllers mgr w').0 ≡ false)
          × (law.names (setup_controllers mgr w').1.outside ≡ law.names w'.outside)
          × (is_ok (setup_v1beta1_service_account_controller mgr w').0 ≡ false)
          × (law.names (setup_v1beta1_service_account_controller mgr w').1.outside
              ≡ law.names w'.outside)
    unfolding setup_controllers setup_v1beta1_service_account_controller reconciler
    setup_controllers_once w empty apart =
        let w' = (setup_controllers mgr w).1 in
        let (done, named) =
          each_added (specs_of config_name) w
            (ap (fresh (specs_of config_name)) empty ∙ specs-fresh config_name apart) in
        let all_named : law.names w'.outside ≡ own_names ++ config_name ∷ [] =
          named ∙ ap (after (specs_of config_name)) empty in
        let (second_fails, kept) =
          each_taken (config_spec config_name) (own_specs) w'
            (ap (member config_name) all_named ∙ ground (arith, eq_refl config_name)) in
        let (no_second, none_added) =
          law.taken w'.outside
            (reconciler service_account_type service_account_group_version_kind
              "serviceaccount.minio.m.crossplane.io" 0)
            (unfold reconciler in ap (member "serviceaccount.minio.m.crossplane.io") all_named) in
        (done, all_named, second_fails, kept, no_second, none_added)
