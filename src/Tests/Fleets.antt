-- ===== src/Tests/Fleets.antt =====
-- Policies and Users at the server of AdminServer, in fleets, in rounds, and together.
use provider_minio.Minio.Endpoints.{new_minio_admin}
use provider_minio.Minio.Connect.{get_provider_config}
use provider_minio.Policy.Render.{get_allow_bucket_policy}
use provider_minio.Policy.Webhook.{validate_create}
use provider_minio.Base.GoMap.{insert, entries, has_key, GoMap}
use provider_minio.Runtime.{has_annotation, ok, no_observation, World, is_ok, allowed}
use provider_minio.Base.{
  ℕ, String, ◌≡◌, ◌≢◌, refl, inl, if◌then◌else◌, nat_eq, true, false, Option, none, some, [], ◌∷◌,
}
use provider_minio.Client.Kube.{Endpoint}
use provider_minio.Apis.Policy.{Policy}
use provider_minio.Apis.User.{User, get_user_name}
use provider_minio.Apis.Managed.{Managed, user}
use provider_minio.User.Create.{create as user_create}
use provider_minio.User.Observe.{observe as user_observe}
use provider_minio.Policy.Create.{create as policy_create, create_document}
use provider_minio.Policy.Observe.{observe as policy_observe}
use provider_minio.Policy.Delete.{delete as policy_delete}
use provider_minio.Fleet.{Fleet, here, next, make, settle, world_of}
use provider_minio.Policy.Fleet.{one_claimant}
use provider_minio.User.Fleet.{one_user}
use provider_minio.User.Webhook.{validate_update}
use provider_minio.Reconcile.Client.{ExternalClient, policy_client, user_client}
use provider_minio.Reconcile.Rounds.{
  settled, here as stay, next as then_round, looked, made, created_by,
}
use provider_minio.Reconcile.PolicyArrival.{of_policy, policy_writing_settles}
use provider_minio.Reconcile.Stuck.{of_user, half_created_user_stuck}
use provider_minio.Reconcile.Dependency.{IsShared, policy-user_admission}
use provider_minio.Tests.AdminServer.{
  AdminServer, admin, generate, iam, lawful, keeping_policies, keeping_users, kube, crypto, dial,
  url,
}

abbrev empty : AdminServer
empty = record { policies = []; users = [] }

-- The Policy readers of a namespace.
abbrev readers : String → Policy
readers namespace = record {
  meta = record {
    name = "readers";
    namespace = namespace;
    annotations = some [];
    deletion_timestamp = none;
  };
  spec = record {
    managed = record {
      provider_config_reference = some "minio";
      write_connection_secret_to_reference = none;
    };
    for_provider = record { allow_bucket = "logs"; raw_policy = "" };
  };
  status = record { conditions = []; at_provider = record { policy = "" } };
}

abbrev policies : Fleet AdminServer Policy
policies = record { outside = empty; objects = λ i. readers (if nat_eq i 0 then "red" else "blue") }

abbrev claimed_once : Fleet AdminServer Policy
claimed_once =
    settle policies 0 (policy_create admin iam (policy_observe admin iam (world_of policies 0)).1).1

one_claimant_example : ◌≡◌ {A = ℕ} 0 0
unfolding has_annotation has_key entries policy_create policy_observe create_document
    get_allow_bucket_policy insert
one_claimant_example =
    one_claimant admin iam keeping_policies {f = policies} {g = claimed_once} 0 0 (λ k. refl)
      (next here (make 0 refl refl)) refl refl refl

-- The user ann of a namespace, who asks for the policy readers.
abbrev ann : String → Option (GoMap String) → User
ann namespace annotations = record {
  meta = record {
    name = "ann";
    namespace = namespace;
    annotations = annotations;
    deletion_timestamp = none;
  };
  spec = record {
    managed = record {
      provider_config_reference = some "minio";
      write_connection_secret_to_reference = some "keys";
    };
    for_provider = record { user_name = ""; policies = some ("readers" ∷ []) };
  };
  status = record {
    conditions = [];
    at_provider = record { user_name = ""; status = ""; policies = "" };
  };
}

-- The policy that ann asks for is there.
abbrev ready : AdminServer
ready = record { policies = ("readers", "{}") ∷ []; users = [] }

abbrev users : Fleet AdminServer User
users = record {
  outside = ready;
  objects = λ i. ann (if nat_eq i 0 then "red" else "blue") (some []);
}

abbrev made_once : Fleet AdminServer User
made_once =
    settle users 0
      (user_create admin generate (user_observe admin kube dial url true (world_of users 0)).1).1

one_user_example : ◌≡◌ {A = ℕ} 0 0
unfolding has_annotation has_key entries user_create user_observe insert get_user_name
one_user_example =
    one_user admin generate keeping_users kube dial url true {f = users} {g = made_once} 0 0
      (λ k. refl) (next here (make 0 refl refl)) refl refl refl

-- There is no policy to attach.
abbrev orphan : World AdminServer User
orphan = record { outside = empty; events = []; resource = ann "red" (some []) }

abbrev user_side : ExternalClient AdminServer
user_side = user_client admin kube dial url true generate

abbrev failed : World AdminServer Managed
failed = of_user (user_create admin generate orphan).1

abbrev tried_again : World AdminServer Managed
tried_again = (created_by user_side failed).1

half_created_user_stuck_example :
    (tried_again.resource ≡ user (ann "red" (some [])))
    × (user_side.observe tried_again ≡ (ok no_observation, tried_again))
    × (is_ok (created_by user_side tried_again).0 ≡ false)
unfolding has_annotation has_key entries user_create insert get_user_name user_client
half_created_user_stuck_example =
    half_created_user_stuck admin generate keeping_users kube dial url true orphan {v = tried_again}
      refl refl refl (then_round stay (made refl refl))

abbrev red : World AdminServer Policy
red = record { outside = empty; events = []; resource = readers "red" }

abbrev policy_side : ExternalClient AdminServer
policy_side = policy_client admin iam

abbrev written : World AdminServer Managed
written = (created_by policy_side (of_policy red)).1

abbrev seen : World AdminServer Managed
seen = (policy_side.observe written).1

policy_writing_settles_example :
    (seen.outside ≡ written.outside)
    × (seen.events ≡ written.events)
    × ((policy_side.observe seen).0 ≡ ok settled)
unfolding validate_create policy_client has_key entries create_document get_allow_bucket_policy
    insert
policy_writing_settles_example =
    policy_writing_settles admin iam lawful red {v = written} {v' = seen}
      (("readers", "2012-10-17") ∷ []) refl (inl (refl, refl)) refl (then_round stay (looked refl))

abbrev endpoint : Endpoint String String
endpoint = record {
  host = "minio.example";
  access_key = "ann";
  secret_key = "x";
  secure = true;
  transport = none;
}

shared : IsShared admin keeping_policies dial endpoint
unfolding has_key
shared = record {
  asked = λ s policies name e. keeping_policies.listed s policies name e;
  removed = λ s name e. refl;
}

-- Another object of the same name is deleted.
abbrev blue : World AdminServer Policy
blue = record { outside = ready; events = []; resource = readers "blue" }

policy-user_admission_example :
    (validate_update kube crypto dial
        (ann "red" none)
        (ann "red" none)
        (policy_create admin iam red).1.outside
      ≡ ok allowed)
    × (validate_update kube crypto dial
          (ann "red" none)
          (ann "red" none)
          (policy_delete admin blue).1.outside
        ≢ ok allowed)
unfolding policy_create has_key create_document get_allow_bucket_policy policy_delete
    get_provider_config new_minio_admin
policy-user_admission_example =
    policy-user_admission admin iam keeping_policies kube crypto dial endpoint shared red blue
      (ann "red" none) (ann "red" none) "readers" refl refl refl refl refl refl refl refl
      (_, _, refl, refl, refl) (_, _, refl, refl, refl)
