-- ===== src/Tests/BucketServer.antt =====
-- A server that keeps buckets, policies, tags and the keys of locked objects, and Bucket objects.
use provider_minio.Base.GoMap.{
  GoMap, lookup, has_key, insert, lookup-insert, has_key-insert, map_deep_equal,
}
use provider_minio.Runtime.{api, errorf, Observation, ok, err, World}
use provider_minio.Base.{
  if◌then◌else◌, Bool-cases, String, ◌≡◌, refl, inl, inr, Bool, true, Option, none, some, [], ◌∷◌,
  arith, eq_refl,
}
use provider_minio.Client.S3.{S3}
use provider_minio.Apis.Bucket.{Bucket, delete_all, delete_if_empty}
use provider_minio.Bucket.Convergence.{IsLawful}
use provider_minio.Bucket.Fleet.{Keeps}

pub record Server : Type 0 where
  pub buckets : GoMap String
  pub policies : GoMap String
  pub tags : GoMap (Option (GoMap String))
  pub kept : Option String

abbrev pub server : S3 Server
server = record {
  to_error_response = elim [ api r ↦ r | _ ↦ record { message = ""; status_code = 0; code = "" } ];
  make_bucket = λ s name region.
      if has_key name s.buckets
      then (err (errorf "bucket name taken"), s)
      else (ok tt, record s { buckets = insert name region s.buckets });
  bucket_exists = λ s name. ok (has_key name s.buckets);
  remove_bucket = λ s name. (ok tt, record s { buckets = [] });
  get_bucket_policy =
      λ s name. elim (lookup name s.policies) [ none ↦ err (errorf "no policy") | some p ↦ ok p ];
  set_bucket_policy = λ s name p. (ok tt, record s { policies = insert name p s.policies });
  new_tags = λ t. if map_deep_equal t t then ok t else err (errorf "bad tags");
  get_bucket_tagging = λ s name. elim (lookup name s.tags) [ none ↦ ok none | some t ↦ ok t ];
  set_bucket_tagging = λ s name t. (ok tt, record s { tags = insert name (some t) s.tags });
  remove_bucket_tagging = λ s name. (ok tt, record s { tags = insert name none s.tags });
  list_objects = λ s name. record { key = "o"; err = none } ∷ [];
  get_object_lock_config = λ s name. ok (some "Enabled");
  remove_objects = λ s name objects bypass. elim s.kept [
    | none ↦ (none, s)
    | some key ↦ (some (record { object_name = key; err = errorf "locked" }), s)
  ];
}

pub new_tags_kept :
    (t : GoMap String) {u : GoMap String} → server.new_tags t ≡ ok u → map_deep_equal u t ≡ true
new_tags_kept t e = elim (Bool-cases (map_deep_equal t t)) [
  | inl same ↦ ground arith
  | inr other ↦ absurd (ground arith)
]

unfoldable pub lawful : IsLawful server
lawful = record {
  canonical = λ p. p;
  policy_written = λ s name p h. ground (arith, lookup-insert name name p s.policies, eq_refl name);
  tags_written =
      λ s name t h. inl (ground (arith, lookup-insert name name (some t) s.tags, eq_refl name));
  tags_removed =
      λ s name h. inl (ground (arith, lookup-insert name name none s.tags, eq_refl name));
  policy_after_tagging = λ s name t. refl;
  policy_after_untagging = λ s name. refl;
  new_tags_same = new_tags_kept;
}

abbrev pub none_yet : Server
none_yet = record { buckets = []; policies = []; tags = []; kept = none }

abbrev pub two_buckets : Server
two_buckets = record {
  buckets = ("logs", "eu") ∷ ("other", "eu") ∷ [];
  policies = ("logs", "{}") ∷ [];
  tags = [];
  kept = some "o";
}

abbrev pub bucket_named : String → Option (GoMap String) → String → Bucket
bucket_named deletion annotations observed_name = record {
  meta = record {
    name = "logs";
    namespace = "";
    annotations = annotations;
    deletion_timestamp = none;
  };
  spec = record {
    managed = record {
      provider_config_reference = some "minio";
      write_connection_secret_to_reference = none;
    };
    for_provider = record {
      bucket_name = "";
      region = "eu";
      bucket_deletion_policy = deletion;
      policy = some "{}";
      tags = some (("team", "a") ∷ ("tier", "b") ∷ []);
    };
  };
  status = record {
    conditions = [];
    endpoint = "";
    endpoint_url = "";
    at_provider = record { bucket_name = observed_name };
  };
}

abbrev pub fresh : Bucket
fresh = bucket_named delete_if_empty none ""

-- Its tags are refused.
abbrev pub unset : Bucket
unset = record fresh {
  spec = record (fresh.spec) {
    for_provider = record (fresh.spec.for_provider) { tags = some (("k", "1") ∷ ("k", "2") ∷ []) };
  };
}

abbrev pub locked : Bucket
locked = bucket_named delete_all (some (("minio.m.crossplane.io/lock", "claimed") ∷ [])) "logs"

abbrev pub start : Server → Bucket → World Server Bucket
start s b = record { outside = s; events = []; resource = b }

abbrev pub found : Bool → Observation
found latest = record { resource_exists = true; resource_up_to_date = latest }

-- It asks for neither policy nor tags.
abbrev pub bare : Bucket
bare = record fresh {
  spec = record (fresh.spec) {
    for_provider = record (fresh.spec.for_provider) { policy = none; tags = none };
  };
}

kept_after_make :
    (s : Server) (name other region : String)
    → server.bucket_exists s name ≡ ok true
    → server.bucket_exists (server.make_bucket s other region).1 name ≡ ok true
unfolding has_key
kept_after_make s name other region e = ground (arith, lookup-insert other name region s.buckets)

pub keeps : Keeps server
keeps = record {
  made = λ s name region h. ground (arith, has_key-insert name region s.buckets);
  after_make = λ s name other region e. kept_after_make s name other region e;
  after_policy = λ s name other policy e. e;
  after_tagging = λ s name other tags e. e;
  after_untagging = λ s name other e. e;
}

-- It holds the lock, and asks for neither policy nor tags.
abbrev pub outlived : Bucket
outlived = record bare { meta = locked.meta }
