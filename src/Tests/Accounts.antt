-- ===== src/Tests/Accounts.antt =====
-- Service accounts over a server that keeps what it tells of them by access key.
use provider_minio.Base.GoMap.{GoMap, lookup, insert, lookup-insert, entries}
use provider_minio.Runtime.{Error, errorf, ok, err, World}
use provider_minio.Base.{
  to_lower, Option-cases, length, ℕ, String, ◌≡◌, refl, inl, inr, true, false, Option, none, some,
  [], ◌∷◌, arith, eq_refl,
}
use provider_minio.Client.Admin.{Admin, InfoServiceAccountResp, UpdateServiceAccountReq, Generate}
use provider_minio.Apis.ServiceAccount.{ServiceAccount}
use provider_minio.ServiceAccount.Identity.{external_name_annotation}
use provider_minio.ServiceAccount.Create.{create}
use provider_minio.ServiceAccount.Observe.{observe}
use provider_minio.ServiceAccount.Update.{update}
use provider_minio.ServiceAccount.Delete.{delete}
use provider_minio.ServiceAccount.Drift.{
  KeepsExpiration, SetsPolicy, observed, account_update-observe, update_keeps_expiration,
}
use provider_minio.ServiceAccount.Removal.{deleted_event, account_delete-lookup_failed}

abbrev Accounts : Type 0
Accounts = GoMap InfoServiceAccountResp

abbrev missing : Error
missing = errorf "the service account does not exist"

abbrev refuse : Error
refuse = errorf "refused"

abbrev changed : UpdateServiceAccountReq → InfoServiceAccountResp → InfoServiceAccountResp
changed req info = record info {
  expiration = elim req.new_expiration [ none ↦ info.expiration | some t ↦ some t ];
  policy = elim req.new_policy [ none ↦ info.policy | some p ↦ to_lower p ];
}

abbrev admin : Admin Accounts
admin = record {
  list_canned_policies = λ s. err refuse;
  add_canned_policy = λ s name document. (err refuse, s);
  remove_canned_policy = λ s name. (err refuse, s);
  list_users = λ s. err refuse;
  get_user_info = λ s name. err refuse;
  add_user = λ s name key. (err refuse, s);
  set_user = λ s name key status. (err refuse, s);
  remove_user = λ s name. (err refuse, s);
  attach_policy = λ s names name. (err refuse, s);
  detach_policy = λ s names name. (err refuse, s);
  info_service_account = λ s key. elim (lookup key s) [ none ↦ err missing | some i ↦ ok i ];
  add_service_account = λ s req. (
    ok (record { access_key = req.access_key; secret_key = req.secret_key }),
    insert req.access_key
        (record {
          parent_user = req.target_user;
          account_status = "on";
          implied_policy = true;
          policy = "";
          expiration = req.expiration;
        })
        s,
  );
  update_service_account = λ s key req. elim (lookup key s) [
    | none ↦ (err missing, s)
    | some i ↦ (ok tt, insert key (changed req i) s)
  ];
  delete_service_account = λ s key. (ok tt, []);
}

abbrev generate : Generate Accounts
generate length digits symbols no_upper allow_repeat s = (ok "generated", s)

keeping : KeepsExpiration admin
keeping = record { expiring = expiring_lem }
  where
    expiring_lem :
        (s : Accounts) (key : String) (req : UpdateServiceAccountReq)
        (before after : InfoServiceAccountResp)
        → (admin.update_service_account s key req).0 ≡ ok tt
        → admin.info_service_account s key ≡ ok before
        → admin.info_service_account (admin.update_service_account s key req).1 key ≡ ok after
        → after.expiration ≡ elim req.new_expiration [ none ↦ before.expiration | some t ↦ some t ]
    expiring_lem s key req before after h b a = elim (Option-cases (lookup key s)) [
      | inl n ↦ absurd (ground arith)
      | inr (i, e) ↦ ground (arith, lookup-insert key key (changed req i) s, eq_refl key)
    ]

setting : SetsPolicy admin
setting = record { canonical = to_lower; policy_set = policy_lem }
  where
    policy_lem :
        (s : Accounts) (key policy : String) (req : UpdateServiceAccountReq)
        (after : InfoServiceAccountResp)
        → (admin.update_service_account s key req).0 ≡ ok tt
        → req.new_policy ≡ some policy
        → admin.info_service_account (admin.update_service_account s key req).1 key ≡ ok after
        → after.policy ≡ to_lower policy
    policy_lem s key policy req after h n a = elim (Option-cases (lookup key s)) [
      | inl missing ↦ absurd (ground arith)
      | inr (i, e) ↦ ground (arith, lookup-insert key key (changed req i) s, eq_refl key)
    ]

abbrev account_with : String → Option ℕ → ServiceAccount
account_with key expiration = record {
  meta = record {
    name = "robot";
    namespace = "";
    annotations = some ((external_name_annotation, "robot-key") ∷ []);
    deletion_timestamp = none;
  };
  spec = record {
    managed = record {
      provider_config_reference = some "minio";
      write_connection_secret_to_reference = none;
    };
    for_provider = record {
      target_user = "root";
      access_key = key;
      secret_key = "";
      name = "robot";
      description = "";
      policy = "";
      expiration = expiration;
      write_connection_secrets_to_ref = none;
    };
  };
  status = record {
    conditions = [];
    at_provider = record {
      access_key = "";
      account_status = "";
      parent_user = "";
      implied_policy = false;
      policy = "";
      expiration = none;
    };
  };
}

abbrev info : Option ℕ → InfoServiceAccountResp
info expiration = record {
  parent_user = "root";
  account_status = "on";
  implied_policy = true;
  policy = "";
  expiration = expiration;
}

abbrev expiring : Accounts
expiring = ("robot-key", info (some 5)) ∷ []

abbrev start : Accounts → ServiceAccount → World Accounts ServiceAccount
start s a = record { outside = s; events = []; resource = a }

account_update-observe_example :
    (observe admin (update admin (start expiring (account_with "robot-key" (some 9)))).1).0
    ≡ ok (observed true)
unfolding update lookup entries insert
account_update-observe_example =
    account_update-observe admin keeping setting
      (start expiring (account_with "robot-key" (some 9))) {before = info (some 5)}
      {after = info (some 9)} refl refl refl (inl refl)

update_keeps_expiration_example :
    (observe admin (update admin (start expiring (account_with "robot-key" none))).1).0
    ≡ ok (observed false)
unfolding update lookup entries insert
update_keeps_expiration_example =
    update_keeps_expiration admin keeping (start expiring (account_with "robot-key" none))
      {before = info (some 5)} {after = info (some 5)} {t = 5} refl refl refl refl refl

abbrev created : World Accounts ServiceAccount
created = (create admin generate (start [] (account_with "robot-key" none))).1

account_delete-lookup_failed_example :
    delete admin (start [] (account_with "robot-key" none))
    ≡ (ok tt, record (start [] (account_with "robot-key" none)) { events = deleted_event ∷ [] })
unfolding lookup
account_delete-lookup_failed_example =
    account_delete-lookup_failed admin (start [] (account_with "robot-key" none)) {e = missing} refl
