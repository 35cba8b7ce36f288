-- ===== src/Tests/Users.antt =====
-- Users over a server that keeps one list of policies, and a MinIO that denies the listing of buckets.
use provider_minio.Base.GoMap.{slice_deep_equal, entries, GoMap, lookup, has_key}
use provider_minio.Runtime.{
  error_text, has_annotation, Error, errorf, no_observation, ok, err, panic, World,
}
use provider_minio.Base.{
  ◌↔◌, join, lacks, if◌then◌else◌, Bool-cases, String, ◌≡◌, refl, inl, inr, true, Option, none,
  some, List, [], ◌∷◌, arith,
}
use provider_minio.Apis.User.{get_user_name, User}
use provider_minio.Apis.ProviderConfig.{ProviderConfig}
use provider_minio.Client.Admin.{Admin, UserInfo, Generate, account_enabled}
use provider_minio.Client.Kube.{Kube, Url, Crypto, Dial}
use provider_minio.User.Policies.{split_policies}
use provider_minio.User.Create.{create}
use provider_minio.User.Observe.{check_credentials, observe, existing}
use provider_minio.User.Update.{update}
use provider_minio.User.Listing.{joined, fit_names, split_policies-joined}
use provider_minio.User.Ownership.{foreign_user}
use provider_minio.User.Panics.{IsCalm, IsSecretless, observe-panic_iff}
use provider_minio.User.Observe.{can_log_in}
use provider_minio.User.Convergence.{IsLawful, user_update-observe}

abbrev refuse : Error
refuse = errorf "refused"

abbrev clean : List String → List String
clean names = if fit_names names then names else []

clean-fit_names : (names : List String) → fit_names (clean names) ≡ true
clean-fit_names names = elim (Bool-cases (fit_names names)) [
  | inl fit ↦ ground arith
  | inr unfit ↦ ground arith
]

abbrev ann_info : List String → UserInfo
ann_info s = record { policy_name = joined (clean s); status = account_enabled }

abbrev admin : Admin (List String)
admin = record {
  list_canned_policies = λ s. ok (("readers", "{}") ∷ ("writers", "{}") ∷ []);
  add_canned_policy = λ s name document. (err refuse, s);
  remove_canned_policy = λ s name. (err refuse, s);
  list_users = λ s. ok (("ann", ann_info s) ∷ []);
  get_user_info = λ s name. ok (ann_info s);
  add_user = λ s name key. (ok tt, s);
  set_user = λ s access_key secret_key status. (ok tt, s);
  remove_user = λ s name. (err refuse, s);
  attach_policy = λ s names name. (ok tt, names);
  detach_policy = λ s names name. (ok tt, []);
  info_service_account = λ s key. err refuse;
  add_service_account = λ s req. (err refuse, s);
  update_service_account = λ s key req. (err refuse, s);
  delete_service_account = λ s key. (err refuse, s);
}

ann_listed :
    (s : List String) (name : String) (users : GoMap UserInfo) (info : UserInfo)
    → admin.list_users s ≡ ok users
    → lookup name users ≡ some info
    → info.policy_name ≡ joined (clean s)
unfolding lookup
ann_listed s name users info l f = ground arith

ann_told :
    (s : List String) (name : String) (info : UserInfo)
    → admin.get_user_info s name ≡ ok info
    → info.policy_name ≡ joined (clean s)
ann_told s name info t = ground arith

abbrev lawful : IsLawful admin
lawful = record {
  canonical = clean;
  policies_of = λ s name. clean s;
  fit = λ s name. clean-fit_names s;
  listed = ann_listed;
  told = ann_told;
  detached = λ s name h. refl;
  attached = λ s name names n h. refl;
  user_set = λ s name access_key secret_key status. refl;
}

abbrev config : ProviderConfig
config = record {
  name = "minio";
  spec = record {
    credentials = record {
      source = "Secret";
      api_secret_ref = record { name = "root"; namespace = "system" };
      secret_ref = none;
    };
    minio_url = "https://minio.example";
    tls = none;
  };
}

abbrev kube : Kube (List String)
kube = record {
  get_secret =
      λ s namespace name. ok (("AWS_ACCESS_KEY_ID", "ann") ∷ ("AWS_SECRET_ACCESS_KEY", "x") ∷ []);
  get_config_map = λ s namespace name. err refuse;
  get_provider_config = λ s name. ok config;
  track = λ s mg. (ok tt, s);
}

abbrev crypto : Crypto String String
crypto = record {
  parse_url = λ text. ok (record { scheme = "https"; host = "minio.example" });
  append_certs = λ text. some text;
  key_pair = λ cert key. ok cert;
}

abbrev dial : Dial (List String) String String
dial = record {
  new_minio = λ e. ok tt;
  new_admin = λ e. ok tt;
  list_buckets = λ s e. err (errorf "Access Denied.");
  list_canned_policies = λ s e. ok (("readers", "{}") ∷ ("writers", "{}") ∷ []);
}

abbrev url : Url
url = record { scheme = "https"; host = "minio.example" }

abbrev generate : Generate (List String)
generate a b c d e s = (ok "generated", s)

-- The user ann, with what its status says and the connection secret it asks for.
abbrev ann : String → Option String → User
ann observed_name secret = record {
  meta = record { name = "ann"; namespace = "team"; annotations = none; deletion_timestamp = none };
  spec = record {
    managed = record {
      provider_config_reference = some "minio";
      write_connection_secret_to_reference = secret;
    };
    for_provider = record { user_name = ""; policies = some ("readers" ∷ "writers" ∷ []) };
  };
  status = record {
    conditions = [];
    at_provider = record { user_name = observed_name; status = ""; policies = "" };
  };
}

abbrev start : List String → User → World (List String) User
start s u = record { outside = s; events = []; resource = u }

abbrev wanted : List String
wanted = "readers" ∷ "writers" ∷ []

user_update-observe_example :
    (observe admin kube dial url true
      (update admin kube (start ("old" ∷ []) (ann "ann" (some "keys")))).1).0
    ≡ ok (existing true)
unfolding has_annotation has_key entries update lacks join get_user_name slice_deep_equal
    check_credentials error_text
user_update-observe_example =
    user_update-observe admin kube lawful dial url true
      (start ("old" ∷ []) (ann "ann" (some "keys"))) (("ann", ann_info wanted) ∷ [])
      (ann_info wanted) refl refl refl refl

foreign_user_example :
    (observe admin kube dial url true (start [] (ann "" none))
      ≡ (ok no_observation, start [] (ann "" none)))
    × (create admin generate (start [] (ann "" none))
        ≡ (err (errorf "user already exists"), start [] (ann "" none)))
unfolding has_annotation has_key entries get_user_name
foreign_user_example =
    foreign_user admin kube dial url true generate (start [] (ann "" none))
      (("ann", ann_info []) ∷ []) "generated" [] refl refl refl refl

calm : IsCalm admin kube dial url true (ann "ann" none) (start wanted (ann "ann" none)).outside
unfolding can_log_in
calm = record { reads = λ name h. ground arith; tries = λ secret h. ground arith }

observe-panic_iff_example :
    ((observe admin kube dial url true (start wanted (ann "ann" none))).0 ≡ panic)
    ↔ IsSecretless admin kube dial url true (start wanted (ann "ann" none))
observe-panic_iff_example =
    observe-panic_iff admin kube dial url true (start wanted (ann "ann" none)) (λ h. ground arith)
      calm

split_policies-joined_example : split_policies "readers,writers" ≡ wanted
unfolding lacks join
split_policies-joined_example = split_policies-joined wanted refl
