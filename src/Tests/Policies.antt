-- ===== src/Tests/Policies.antt =====
-- Policies over a server that keeps documents by name, and a package of policies that are texts.
use provider_minio.Base.GoMap.{GoMap, lookup, has_key, insert, lookup-insert, entries}
use provider_minio.Runtime.{
  Error, errorf, Observation, no_observation, ok, err, World, has_annotation,
}
use provider_minio.Base.{◌==◌, String, ◌≡◌, refl, true, Option, none, some, [], ◌∷◌, arith, eq_refl}
use provider_minio.Client.Admin.{Admin}
use provider_minio.Client.Iam.{Iam}
use provider_minio.Apis.Policy.{Policy}
use provider_minio.Policy.Render.{policy_created_annotation_key, same_object}
use provider_minio.Policy.Create.{create}
use provider_minio.Policy.Observe.{observe}
use provider_minio.Policy.Ownership.{foreign_policy}
use provider_minio.Policy.Convergence.{IsLawful}

abbrev refuse : Error
refuse = errorf "refused"

abbrev admin : Admin (GoMap String)
admin = record {
  list_canned_policies = λ s. ok s;
  add_canned_policy = λ s name document. (ok tt, insert name document s);
  remove_canned_policy = λ s name. (err refuse, s);
  list_users = λ s. err refuse;
  get_user_info = λ s name. err refuse;
  add_user = λ s name key. (err refuse, s);
  set_user = λ s name key status. (err refuse, s);
  remove_user = λ s name. (err refuse, s);
  attach_policy = λ s names name. (err refuse, s);
  detach_policy = λ s names name. (err refuse, s);
  info_service_account = λ s key. err refuse;
  add_service_account = λ s req. (err refuse, s);
  update_service_account = λ s key req. (err refuse, s);
  delete_service_account = λ s key. (err refuse, s);
}

abbrev iam : Iam String
iam = record {
  allow = "Allow";
  all_actions = "s3:*";
  new_policy = λ version statements. version;
  validate = λ p. ok tt;
  marshal = λ p. ok p;
  unmarshal = λ t. ok t;
  equals = λ p q. p == q;
}

same_document : (d : String) → same_object iam d d ≡ ok true
unfolding same_object
same_document d = ground (arith, eq_refl d)

lawful : IsLawful admin iam
lawful = record {
  stored = λ s name d. d;
  added_listed = λ s name d policies h l. ground (arith, lookup-insert name name d s, eq_refl name);
  added_same = λ s name d h. same_document d;
}

abbrev policy_with : Option (GoMap String) → Policy
policy_with annotations = record {
  meta = record {
    name = "readers";
    namespace = "";
    annotations = annotations;
    deletion_timestamp = none;
  };
  spec = record {
    managed = record {
      provider_config_reference = some "minio";
      write_connection_secret_to_reference = none;
    };
    for_provider = record { allow_bucket = "logs"; raw_policy = "" };
  };
  status = record { conditions = []; at_provider = record { policy = "" } };
}

abbrev fresh : Policy
fresh = policy_with (some [])

abbrev owned : Policy
owned = policy_with (some ((policy_created_annotation_key, "true") ∷ []))

abbrev start : GoMap String → Policy → World (GoMap String) Policy
start s p = record { outside = s; events = []; resource = p }

abbrev latest : Observation
latest = record { resource_exists = true; resource_up_to_date = true }

abbrev stored : GoMap String
stored = ("readers", "old") ∷ []

foreign_policy_example :
    (observe admin iam (start stored fresh) ≡ (ok no_observation, start stored fresh))
    × (create admin iam (start stored fresh)
        ≡ (err (errorf "policy already exists"), start stored fresh))
unfolding has_key lookup has_annotation entries
foreign_policy_example = foreign_policy admin iam (start stored fresh) stored refl refl refl
