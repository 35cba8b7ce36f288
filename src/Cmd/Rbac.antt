-- ===== src/Cmd/Rbac.antt =====
-- `setupRBAC` and `withVerbs` of cmd/provider/main.go. The fields that the API server writes into an
-- object at its creation are left out.
use provider_minio.Runtime.{Result, ok, err, panic, M, pure, fail, crash, ◌>>=◌, ◌>>◌, attempt_call}
use provider_minio.Base.{if◌then◌else◌, String, List, [], ◌∷◌}
use provider_minio.Client.Rbac.{PolicyRule, ClusterRole, ClusterRoleBinding, RbacClient}

-- `withVerbs`
unfoldable pub with_verbs : List PolicyRule → List String → List PolicyRule
with_verbs [] verbs = []
with_verbs (rule ∷ rules) verbs = record rule { verbs = verbs } ∷ with_verbs rules verbs

abbrev pub all_but_delete : List String
all_but_delete = "get" ∷ "list" ∷ "watch" ∷ "update" ∷ "patch" ∷ "create" ∷ []

abbrev rule_of : String → List String → PolicyRule
rule_of group resources = record {
  api_groups = group ∷ [];
  resources = resources;
  verbs = all_but_delete;
}

-- `rules`
unfoldable pub own_rules : List PolicyRule
own_rules =
    rule_of "minio.crossplane.io" (
      "providerconfigs" ∷ "providerconfigs/status" ∷ "providerconfigusages"
      ∷ "providerconfigusages/status" ∷ [])
    ∷ rule_of "bucket.minio.crossplane.io" ("buckets" ∷ "buckets/status" ∷ [])
    ∷ rule_of "user.minio.crossplane.io" ("users" ∷ "users/status" ∷ [])
    ∷ rule_of "policy.minio.crossplane.io" ("policies" ∷ "policies/status" ∷ [])
    ∷ rule_of "serviceaccount.minio.crossplane.io"
        ("serviceaccounts" ∷ "serviceaccounts/status" ∷ [])
    ∷ rule_of "notificationconfiguration.minio.crossplane.io"
        ("notificationconfigurations" ∷ "notificationconfigurations/status" ∷ [])
    ∷ record {
      api_groups =
          "minio.crossplane.io" ∷ "bucket.minio.crossplane.io" ∷ "user.minio.crossplane.io"
          ∷ "policy.minio.crossplane.io" ∷ "serviceaccount.minio.crossplane.io"
          ∷ "notificationconfiguration.minio.crossplane.io" ∷ [];
      resources = "*/finalizers" ∷ [];
      verbs = "update" ∷ [];
    }
    ∷ record {
      api_groups = "" ∷ "coordination.k8s.io" ∷ [];
      resources = "secrets" ∷ "configmaps" ∷ "events" ∷ "leases" ∷ [];
      verbs = "*" ∷ [];
    }
    ∷ []

unfoldable pub system_role : ClusterRole
unfolding own_rules
system_role = record {
  name = "crossplane:provider:provider-minio:system";
  labels = ("rbac.crossplane.io/system", "provider-minio") ∷ [];
  rules = own_rules;
}

unfoldable pub system_binding : ClusterRoleBinding
system_binding = record {
  name = "crossplane:provider:provider-minio:system";
  role_name = "crossplane:provider:provider-minio:system";
  subject_name = "provider-minio";
  subject_namespace = "crossplane-system";
}

unfoldable pub edit_role : ClusterRole
unfolding own_rules with_verbs
edit_role = record {
  name = "crossplane:provider:provider-minio:aggregate-to-edit";
  labels =
      ("rbac.crossplane.io/aggregate-to-edit", "true")
      ∷ ("rbac.crossplane.io/aggregate-to-admin", "true")
      ∷ ("rbac.crossplane.io/aggregate-to-crossplane", "true")
      ∷ ("rbac.crossplane.io/system", "provider-minio")
      ∷ [];
  rules = with_verbs own_rules ("*" ∷ []);
}

unfoldable pub view_role : ClusterRole
unfolding own_rules with_verbs
view_role = record {
  name = "crossplane:provider:provider-minio:aggregate-to-view";
  labels =
      ("rbac.crossplane.io/aggregate-to-view", "true")
      ∷ ("rbac.crossplane.io/system", "provider-minio")
      ∷ [];
  rules = with_verbs own_rules ("get" ∷ "list" ∷ "watch" ∷ []);
}

module _ {S R : Type 0} (rbac : RbacClient S) where
  -- `if err := f(); err != nil && !errors.IsAlreadyExists(err) { return err }`
  unfoldable pub create_or_have : (S → Result (Unit {0}) × S) → M S R (Unit {0})
  create_or_have f = do
    made ← attempt_call f
    elim made [
      | ok _ ↦ pure tt
      | err e ↦ if rbac.is_already_exists e then pure tt else fail e
      | panic ↦ crash
    ]

  -- A call whose error is at most logged.
  unfoldable pub try_call : (S → Result (Unit {0}) × S) → M S R (Unit {0})
  try_call f = do
    done ← attempt_call f
    elim done [ ok _ ↦ pure tt | err _ ↦ pure tt | panic ↦ crash ]

  -- `setupRBAC`
  unfoldable pub setup_rbac : M S R (Unit {0})
  unfolding create_or_have try_call system_role system_binding edit_role view_role
  setup_rbac = do
    create_or_have (λ s. rbac.create_role s system_role)
    try_call (λ s. rbac.update_role s system_role)
    create_or_have (λ s. rbac.create_binding s system_binding)
    try_call (λ s. rbac.update_binding s system_binding)
    try_call (λ s. rbac.create_role s edit_role)
    try_call (λ s. rbac.update_role s edit_role)
    try_call (λ s. rbac.create_role s view_role)
    try_call (λ s. rbac.update_role s view_role)
