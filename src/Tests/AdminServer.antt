-- ===== src/Tests/AdminServer.antt =====
-- A server that keeps policies and users, with a package of policies that are texts.
use provider_minio.Base.GoMap.{GoMap, has_key, insert, lookup-insert, has_key-insert}
use provider_minio.Runtime.{Error, errorf, ok, err, Result}
use provider_minio.Base.{
  if◌then◌else◌, ◌==◌, is_nil, String, ◌≡◌, refl, true, none, some, [], ◌∷◌, arith, eq_refl,
}
use provider_minio.Client.Admin.{Admin, UserInfo, Generate, account_enabled}
use provider_minio.Client.Iam.{Iam}
use provider_minio.Client.Kube.{Kube, Url, Crypto, Dial}
use provider_minio.Apis.ProviderConfig.{ProviderConfig}
use provider_minio.Policy.Render.{same_object}
use provider_minio.Policy.Convergence.{IsLawful}
use provider_minio.Policy.Fleet.{IsKeeping as KeepsPolicies}
use provider_minio.User.Keeping.{IsKeeping as KeepsUsers}

pub record AdminServer : Type 0 where
  pub policies : GoMap String
  pub users : GoMap UserInfo

abbrev pub refuse : Error
refuse = errorf "refused"

abbrev new_user : UserInfo
new_user = record { policy_name = ""; status = account_enabled }

-- No policy can be attached where there is none.
abbrev pub admin : Admin AdminServer
admin = record {
  list_canned_policies = λ s. ok s.policies;
  add_canned_policy =
      λ s name document. (ok tt, record s { policies = insert name document s.policies });
  remove_canned_policy = λ s name. (ok tt, record s { policies = [] });
  list_users = λ s. ok s.users;
  get_user_info = λ s name. err refuse;
  add_user = λ s name key. (ok tt, record s { users = insert name new_user s.users });
  set_user = λ s access_key secret_key status. (err refuse, s);
  remove_user = λ s name. (err refuse, s);
  attach_policy = λ s names name. (if is_nil s.policies then err refuse else ok tt, s);
  detach_policy = λ s names name. (ok tt, s);
  info_service_account = λ s key. err refuse;
  add_service_account = λ s req. (err refuse, s);
  update_service_account = λ s key req. (err refuse, s);
  delete_service_account = λ s key. (err refuse, s);
}

abbrev pub generate : Generate AdminServer
generate length digits symbols no_upper allow_repeat s = (ok "generated", s)

abbrev pub iam : Iam String
iam = record {
  allow = "Allow";
  all_actions = "s3:*";
  new_policy = λ version statements. version;
  validate = λ p. ok tt;
  marshal = λ p. ok p;
  unmarshal = λ t. ok t;
  equals = λ p q. p == q;
}

same_document : (d : String) → same_object iam d d ≡ ok true
unfolding same_object
same_document d = ground (arith, eq_refl d)

pub lawful : IsLawful admin iam
lawful = record {
  stored = λ s name d. d;
  added_listed =
      λ s name d policies h l. ground (arith, lookup-insert name name d s.policies, eq_refl name);
  added_same = λ s name d h. same_document d;
}

pub policy_stays :
    (s : AdminServer) (name other document : String)
    → has_key name s.policies ≡ true
    → has_key name (insert other document s.policies) ≡ true
unfolding has_key
policy_stays s name other document e = ground (arith, lookup-insert other name document s.policies)

pub user_stays :
    (s : AdminServer) (name other : String)
    → has_key name s.users ≡ true
    → has_key name (insert other new_user s.users) ≡ true
unfolding has_key
user_stays s name other e = ground (arith, lookup-insert other name new_user s.users)

pub listed_there :
    {A : Type 0} (m n : GoMap A) (name : String)
    → ◌≡◌ {A = Result (GoMap A)} (ok m) (ok n)
    → has_key name n ≡ has_key name m
listed_there m n name e = ground arith

abbrev pub keeping_policies : KeepsPolicies admin
keeping_policies = record {
  has = λ s name. has_key name s.policies;
  listed = λ s policies name e. listed_there s.policies policies name e;
  added = λ s name document e. has_key-insert name document s.policies;
  kept = policy_stays;
}

abbrev pub keeping_users : KeepsUsers admin generate
keeping_users = record {
  has = λ s name. has_key name s.users;
  listed = λ s users name e. listed_there s.users users name e;
  generated = λ s name. refl;
  added = λ s name key e. has_key-insert name new_user s.users;
  after_adding = λ s name other key e. user_stays s name other e;
  after_setting = λ s name access_key secret_key status e. e;
  after_attaching = λ s name other policies e. e;
  after_detaching = λ s name other policies e. e;
}

abbrev config : ProviderConfig
config = record {
  name = "minio";
  spec = record {
    credentials = record {
      source = "Secret";
      api_secret_ref = record { name = "root"; namespace = "system" };
      secret_ref = none;
    };
    minio_url = "https://minio.example";
    tls = none;
  };
}

abbrev pub kube : Kube AdminServer
kube = record {
  get_secret =
      λ s namespace name. ok (("AWS_ACCESS_KEY_ID", "ann") ∷ ("AWS_SECRET_ACCESS_KEY", "x") ∷ []);
  get_config_map = λ s namespace name. err refuse;
  get_provider_config = λ s name. ok config;
  track = λ s mg. (ok tt, s);
}

abbrev pub crypto : Crypto String String
crypto = record {
  parse_url = λ text. ok (record { scheme = "https"; host = "minio.example" });
  append_certs = λ text. some text;
  key_pair = λ cert key. ok cert;
}

abbrev pub dial : Dial AdminServer String String
dial = record {
  new_minio = λ e. ok tt;
  new_admin = λ e. ok tt;
  list_buckets = λ s e. err (errorf "Access Denied.");
  list_canned_policies = λ s e. ok s.policies;
}

abbrev pub url : Url
url = record { scheme = "https"; host = "minio.example" }
