-- ===== src/Tests/Reconciles.antt =====
-- The rounds of the reconciler on Buckets at the server of BucketServer, in a family of clients over it.
use provider_minio.Base.GoMap.{entries, has_key}
use provider_minio.Runtime.{no_observation, Error, errorf, ok, err, World}
use provider_minio.Base.{some, none, ◌≢◌, Bool, false, arith, ◌≡◌, refl, true, [], String}
use provider_minio.Apis.Bucket.{get_bucket_name}
use provider_minio.Apis.Managed.{Managed, other}
use provider_minio.Client.S3.{Notifications}
use provider_minio.Client.Admin.{Admin, Generate}
use provider_minio.Client.Iam.{Iam}
use provider_minio.Client.Kube.{Kube, Url, Dial}
use provider_minio.Reconcile.Client.{ExternalClient, bucket_client}
use provider_minio.Reconcile.Family.{of_buckets, client_of}
use provider_minio.Reconcile.Rounds.{settled, here, next, looked, created_by}
use provider_minio.Reconcile.Arrival.{lift, creation_settles}
use provider_minio.Reconcile.Settled.{Rounds-keep_settled}
use provider_minio.Base.GoMap.{has_key}
use provider_minio.Reconcile.Removal.{IsRemoving}
use provider_minio.Reconcile.Departure.{deletion_completes}
use provider_minio.Tests.BucketServer.{
  found, Server, server, lawful, keeps, none_yet, two_buckets, bare, outlived, start,
}

abbrev refuse : Error
refuse = errorf "refused"

abbrev admin : Admin Server
admin = record {
  list_canned_policies = λ s. ok [];
  add_canned_policy = λ s name document. (err refuse, s);
  remove_canned_policy = λ s name. (err refuse, s);
  list_users = λ s. ok [];
  get_user_info = λ s name. err refuse;
  add_user = λ s name key. (err refuse, s);
  set_user = λ s access_key secret_key status. (err refuse, s);
  remove_user = λ s name. (err refuse, s);
  attach_policy = λ s names name. (err refuse, s);
  detach_policy = λ s names name. (err refuse, s);
  info_service_account = λ s key. err refuse;
  add_service_account = λ s req. (err refuse, s);
  update_service_account = λ s key req. (err refuse, s);
  delete_service_account = λ s key. (err refuse, s);
}

abbrev kube : Kube Server
kube = record {
  get_secret = λ s namespace name. err refuse;
  get_config_map = λ s namespace name. err refuse;
  get_provider_config = λ s name. err refuse;
  track = λ s mg. (ok tt, s);
}

abbrev generate : Generate Server
generate length digits symbols no_upper allow_repeat s = (ok "secret", s)

abbrev iam : Iam String
iam = record {
  allow = "Allow";
  all_actions = "s3:*";
  new_policy = λ version statements. version;
  validate = λ p. ok tt;
  marshal = λ p. ok p;
  unmarshal = λ text. ok text;
  equals = λ p q. true;
}

abbrev mc : Notifications Server (Unit {0})
mc = record {
  no_rest = tt;
  new_arn = λ partition service region id resource. id;
  new_config = λ arn. record { arn = arn; lambda = ""; events = []; filter = some none };
  get_bucket_notification = λ s name. err refuse;
  set_bucket_notification = λ s name configuration. (err refuse, s);
}

abbrev dial : Dial Server String String
dial = record {
  new_minio = λ endpoint. ok tt;
  new_admin = λ endpoint. ok tt;
  list_buckets = λ s endpoint. ok tt;
  list_canned_policies = λ s endpoint. ok [];
}

abbrev url : Url
url = record { scheme = "https"; host = "minio.example" }

abbrev bucket_side : ExternalClient Server
bucket_side = client_of server admin kube generate iam mc dial url true of_buckets

-- An object of another type.
abbrev foreign : World Server Managed
foreign = record { outside = two_buckets; events = []; resource = other }

abbrev owned : World Server Managed
owned = lift (start two_buckets outlived)

abbrev looked_twice : World Server Managed
looked_twice = (bucket_side.observe (bucket_side.observe owned).1).1

Rounds-keep_settled_example :
    (looked_twice.outside ≡ two_buckets)
    × (looked_twice.events ≡ [])
    × ((bucket_side.observe looked_twice).0 ≡ ok settled)
unfolding client_of has_key entries get_bucket_name
Rounds-keep_settled_example =
    Rounds-keep_settled server admin kube generate iam mc dial url true of_buckets {w = owned} refl
      refl (next (next here (looked refl)) (looked refl))

abbrev created : World Server Managed
created = (created_by (bucket_client server) (lift (start none_yet bare))).1

abbrev seen : World Server Managed
seen = ((bucket_client server).observe created).1

creation_settles_example :
    (seen.outside ≡ created.outside)
    × (seen.events ≡ created.events)
    × (((bucket_client server).observe seen).0 ≡ ok settled)
unfolding bucket_client has_key entries
creation_settles_example =
    creation_settles server lawful keeps (start none_yet bare) {w' = seen} refl refl
      (next here (looked refl))

bucket_removed :
    (s : Server) (name : String) → has_key name (server.remove_bucket s name).1.buckets ≢ true
unfolding has_key
bucket_removed s name e = absurd (ground arith)

removing : IsRemoving server admin
removing = record {
  bucket_gone = λ s name e there. bucket_removed s name (ground arith);
  policy_gone = λ s name policies e. absurd (ground arith);
  user_gone = λ s name users e. absurd (ground arith);
  account_gone = λ s key info e. absurd (ground arith);
}

deletion_completes_example : ◌≡◌ {A = Bool} false false
unfolding client_of has_key entries get_bucket_name
deletion_completes_example =
    deletion_completes server admin kube generate iam mc dial url true removing of_buckets owned
      {o = found true} {o' = no_observation} refl refl refl refl refl
