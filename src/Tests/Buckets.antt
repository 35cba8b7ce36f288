-- ===== src/Tests/Buckets.antt =====
-- The theorems on buckets at the server of BucketServer.
use provider_minio.Base.GoMap.{lookup, has_key, insert, entries, map_deep_equal}
use provider_minio.Runtime.{errorf, no_creation, ok, err, World}
use provider_minio.Base.{some, ◌⊎◌, inl, none, ◌∷◌, ◌≤◌, ℕ, ◌≡◌, refl, ◌≢◌, ◌⊎◌, true, false, []}
use provider_minio.Apis.Bucket.{Bucket, get_bucket_name}
use provider_minio.Bucket.Lock.{is_locked}
use provider_minio.Bucket.Observe.{observe}
use provider_minio.Bucket.Create.{create}
use provider_minio.Bucket.Update.{update}
use provider_minio.Bucket.Delete.{listed_objects, delete, has_delete_all_policy}
use provider_minio.Bucket.Ownership.{create_adopts, create_failed-observe, taken_error}
use provider_minio.Bucket.Deletion.{delete_all_outcomes, IsStopped, IsRemoved, emptied}
use provider_minio.Bucket.Convergence.{bucket_create-observe, bucket_update-observe}
use provider_minio.Tests.BucketServer.{
  Server, server, lawful, none_yet, two_buckets, fresh, unset, locked, start, found, bare, keeps,
  outlived,
}
use provider_minio.Fleet.{Fleet, world_of, settle, Reach, here, next, make, look}
use provider_minio.Bucket.Fleet.{handlers}
use provider_minio.Bucket.Feed.{
  opened, opened, Feed, Run, stay, more, send, close, leave, Step, IsBlocked, feed_ends,
}
use provider_minio.Bucket.Fleet.Alone.{one_owner}
use provider_minio.Bucket.Fleet.Successor.{deleted-finds_successor}

bucket_create-observe_example :
    (observe server (create server (start none_yet fresh)).1).0 ≡ ok (found true)
unfolding create has_key lookup map_deep_equal insert get_bucket_name lawful
bucket_create-observe_example = bucket_create-observe server lawful (start none_yet fresh) refl refl

bucket_update-observe_example :
    (observe server (update server (start two_buckets locked)).1).0 ≡ ok (found true)
unfolding update is_locked has_key lookup map_deep_equal insert entries get_bucket_name lawful
bucket_update-observe_example =
    bucket_update-observe server lawful (start two_buckets locked) refl refl refl

create_failed-observe_example :
    let w' : World Server Bucket = record ((create server (start none_yet unset)).1) {
      outside = two_buckets;
    } in
    ((observe server w').0 ≢ ok (found true))
    × ((server.bucket_exists two_buckets "logs" ≢ ok true)
        ⊎ ((observe server w').0 ≡ err (taken_error unset)))
unfolding create is_locked has_key lookup map_deep_equal insert entries get_bucket_name
create_failed-observe_example =
    create_failed-observe server (start none_yet unset) two_buckets true refl refl

delete_all_outcomes_example :
    IsStopped server (start two_buckets locked) (emptied server (start two_buckets locked) true)
    ⊎ IsRemoved server (start two_buckets locked) (emptied server (start two_buckets locked) true)
unfolding has_delete_all_policy
delete_all_outcomes_example =
    delete_all_outcomes server (start two_buckets locked) true refl
      (inl (some "Enabled", refl, refl))

create_adopts_example :
    ((create server (start two_buckets bare)).0 ≡ ok no_creation)
    × (is_locked (create server (start two_buckets bare)).1.resource ≡ true)
unfolding has_key lookup get_bucket_name
create_adopts_example =
    create_adopts server (start two_buckets bare) {e = errorf "bucket name taken"} refl refl refl
      refl

abbrev begin : Fleet Server Bucket
begin = record { outside = none_yet; objects = λ k. bare }

abbrev first_made : Fleet Server Bucket
first_made = settle begin 0 (create server (observe server (world_of begin 0)).1).1

abbrev then_seen : Fleet Server Bucket
then_seen = settle first_made 1 (observe server (world_of first_made 1)).1

reached : Reach (handlers server) begin then_seen
unfolding observe has_key lookup entries
reached = next (next here (make 0 refl refl)) (look 1 refl)

one_owner_example : ◌≡◌ {A = ℕ} 0 0
unfolding observe create has_key lookup is_locked entries insert
one_owner_example =
    one_owner server keeps {f = begin} {g = then_seen} 0 0 (λ k. refl) reached refl refl refl

deleted-finds_successor_example :
    (true ≡ true)
    × ((observe server
          (record ((create server
            (record ((delete server (start none_yet outlived)).1) { resource = bare })).1) {
              resource = outlived;
            })).1.resource.status.at_provider.bucket_name
        ≡ "logs")
unfolding observe create delete has_key lookup is_locked entries insert get_bucket_name
deleted-finds_successor_example =
    deleted-finds_successor server keeps (start none_yet outlived) bare {o = found true} refl refl
      refl refl

-- The receiver reads the one object and leaves; then the channel is closed.
abbrev read_and_left : Feed
read_and_left = record {
  rest = [];
  closed = true;
  listening = false;
  received = record { key = "o"; err = none } ∷ [];
}

read_and_left-Run : Run (opened (server.list_objects two_buckets "logs")) 3 read_and_left
read_and_left-Run =
    more (more (more stay (send _ _ refl refl refl refl refl)) (leave refl refl))
      (close refl refl refl)

feed_ends_example :
    (3 ≤ 3)
    × (record { key = "o"; err = none } ∷ [] ≡ listed_objects server "logs" two_buckets)
    × (((h : Feed) × Step read_and_left h)
        ⊎ (((true ≡ true)
              × (record { key = "o"; err = none } ∷ [] ≡ listed_objects server "logs" two_buckets))
            ⊎ IsBlocked read_and_left))
feed_ends_example = feed_ends server "logs" two_buckets read_and_left-Run
