-- ===== src/Policy/Render.antt =====
-- The policy documents of operator/policy: the one that `allowBucket` stands for, the comparison of
-- two texts, and the annotation of a created policy.
use provider_minio.Base.GoMap.{insert}
use provider_minio.Runtime.{Error, errorf, Result, ok, err, panic, M}
use provider_minio.Base.{String, Bool, none, some, [], ◌∷◌}
use provider_minio.Apis.Policy.{Policy}
use provider_minio.Client.Iam.{Iam, Statement}

-- `PolicyCreatedAnnotationKey`
abbrev pub policy_created_annotation_key : String
policy_created_annotation_key = "minio.crossplane.io/policy-created"

abbrev pub err_not_policy : Error
err_not_policy = errorf "managed resource is not a policy"

module _ {P : Type 0} (iam : Iam P) where
  -- The one statement of such a policy: all actions on the bucket and on all that is in it.
  unfoldable pub allow_statement : String → Statement
  allow_statement bucket = record {
    sid = "addPerm";
    effect = iam.allow;
    actions = iam.all_actions ∷ [];
    resources = (bucket, "/") ∷ (bucket, "*") ∷ [];
  }

  -- `getAllowBucketPolicy`
  unfoldable pub get_allow_bucket_policy : String → Result String
  unfolding allow_statement
  get_allow_bucket_policy bucket =
      let policy = iam.new_policy "2012-10-17" (allow_statement bucket ∷ []) in
      elim (iam.validate policy) [ ok _ ↦ iam.marshal policy | err e ↦ err e | panic ↦ panic ]

  -- `sameObject`
  unfoldable pub same_object : String → String → Result Bool
  same_object a b = elim (iam.unmarshal a) [
    | ok pa ↦ elim (iam.unmarshal b) [
      | ok pb ↦ ok (iam.equals pa pb)
      | err e ↦ err e
      | panic ↦ panic
    ]
    | err e ↦ err e
    | panic ↦ panic
  ]

-- `setLock`: the map of annotations is written as it is, so that a nil map panics.
unfoldable pub set_lock : {S : Type 0} → M S Policy (Unit {0})
set_lock w = elim w.resource.meta.annotations [
  | none ↦ (panic, w)
  | some a ↦ (
    ok tt,
    record w {
      resource = record (w.resource) {
        meta = record (w.resource.meta) {
          annotations = some (insert policy_created_annotation_key "claimed" a);
        };
      };
    },
  )
]
