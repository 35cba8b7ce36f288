-- ===== src/Tests/Roles.antt =====
-- A cluster that keeps roles and bindings by name.
use provider_minio.Base.GoMap.{GoMap, lookup, has_key, insert, lookup-insert}
use provider_minio.Runtime.{Error, errorf, error_text, Result, ok, err, World}
use provider_minio.Base.{
  none, Option-cases, if◌then◌else◌, ◌==◌, String, ◌≡◌, refl, false, inl, inr, some, [], ◌∷◌, arith,
  eq_refl,
}
use provider_minio.Client.Rbac.{ClusterRole, ClusterRoleBinding, RbacClient}
use provider_minio.Cmd.Rbac.{setup_rbac, system_role, edit_role, view_role, system_binding}
use provider_minio.Cmd.Ensured.{
  IsStore, IsServing, may_replace_role, may_replace_binding, setup_rbac-ensures,
}

record Cluster : Type 0 where
  roles : GoMap ClusterRole
  bindings : GoMap ClusterRoleBinding

abbrev exists : Error
exists = errorf "already exists"

abbrev immutable : Error
immutable = errorf "cannot change roleRef"

abbrev create_role : Cluster → ClusterRole → Result (Unit {0}) × Cluster
create_role s r =
    if has_key r.name s.roles
    then (err exists, s)
    else (ok tt, record s { roles = insert r.name r s.roles })

abbrev update_role : Cluster → ClusterRole → Result (Unit {0}) × Cluster
update_role s r = (ok tt, record s { roles = insert r.name r s.roles })

abbrev create_binding : Cluster → ClusterRoleBinding → Result (Unit {0}) × Cluster
create_binding s b =
    if has_key b.name s.bindings
    then (err exists, s)
    else (ok tt, record s { bindings = insert b.name b s.bindings })

abbrev update_binding : Cluster → ClusterRoleBinding → Result (Unit {0}) × Cluster
update_binding s b = elim (lookup b.name s.bindings) [
  | none ↦ (err immutable, s)
  | some old ↦
      if may_replace_binding old b
      then (ok tt, record s { bindings = insert b.name b s.bindings })
      else (err immutable, s)
]

abbrev client : RbacClient Cluster
client = record {
  create_role = create_role;
  update_role = update_role;
  create_binding = create_binding;
  update_binding = update_binding;
  is_already_exists = λ e. error_text e == "already exists";
}

roles_stored :
    IsStore
      (λ x. x.name)
      may_replace_role
      create_role
      update_role
      client.is_already_exists
      (λ s name. lookup name s.roles)
unfolding has_key error_text
roles_stored = record {
  created = λ s x n.
      (ground arith, ground (arith, lookup-insert x.name x.name x s.roles, eq_refl x.name));
  taken = λ s x old e. ((exists, ground arith, refl), ground arith);
  updated =
      λ s x old e f. (refl, ground (arith, lookup-insert x.name x.name x s.roles, eq_refl x.name));
  refused = λ s x old e f. absurd (ground arith);
  created_frame = λ s x name d. ground (arith, lookup-insert x.name name x s.roles);
  updated_frame = λ s x name d. ground (arith, lookup-insert x.name name x s.roles);
}

binding_frame :
    (s : Cluster) (x : ClusterRoleBinding) (name : String)
    → (x.name == name) ≡ false
    → lookup name (update_binding s x).1.bindings ≡ lookup name s.bindings
binding_frame s x name d = elim (Option-cases (lookup x.name s.bindings)) [
  | inl n ↦ ground arith
  | inr (old, e) ↦ ground (arith, lookup-insert x.name name x s.bindings)
]

binding_update_apart :
    (s : Cluster) (x : ClusterRoleBinding) (name : String)
    → lookup name (update_binding s x).1.roles ≡ lookup name s.roles
binding_update_apart s x name = elim (Option-cases (lookup x.name s.bindings)) [
  | inl n ↦ ground arith
  | inr (old, e) ↦ ground arith
]

bindings_stored :
    IsStore
      (λ x. x.name)
      may_replace_binding
      create_binding
      update_binding
      client.is_already_exists
      (λ s name. lookup name s.bindings)
unfolding has_key error_text
bindings_stored = record {
  created = λ s x n.
      (ground arith, ground (arith, lookup-insert x.name x.name x s.bindings, eq_refl x.name));
  taken = λ s x old e. ((exists, ground arith, refl), ground arith);
  updated = λ s x old e f.
      (ground arith, ground (arith, lookup-insert x.name x.name x s.bindings, eq_refl x.name));
  refused = λ s x old e f. ((immutable, ground arith), ground arith);
  created_frame = λ s x name d. ground (arith, lookup-insert x.name name x s.bindings);
  updated_frame = λ s x name d. binding_frame s x name d;
}

role_creation_apart :
    (s : Cluster) (r : ClusterRole) (name : String)
    → lookup name (create_role s r).1.bindings ≡ lookup name s.bindings
role_creation_apart s r name = ground arith

binding_creation_apart :
    (s : Cluster) (b : ClusterRoleBinding) (name : String)
    → lookup name (create_binding s b).1.roles ≡ lookup name s.roles
binding_creation_apart s b name = ground arith

abbrev serving : IsServing client
serving = record {
  role_at = λ s name. lookup name s.roles;
  binding_at = λ s name. lookup name s.bindings;
  roles = roles_stored;
  bindings = bindings_stored;
  create_role_frame = role_creation_apart;
  update_role_frame = λ s r name. refl;
  create_binding_frame = binding_creation_apart;
  update_binding_frame = binding_update_apart;
}

-- An old role is there already, and a binding of the name to another role.
abbrev old_binding : ClusterRoleBinding
old_binding = record {
  name = "crossplane:provider:provider-minio:system";
  role_name = "cluster-admin";
  subject_name = "provider-minio";
  subject_namespace = "crossplane-system";
}

abbrev start : World Cluster (Unit {0})
start = record {
  outside = record {
    roles =
        (
          "crossplane:provider:provider-minio:system",
          record { name = "crossplane:provider:provider-minio:system"; labels = []; rules = [] },
        )
        ∷ [];
    bindings = ("crossplane:provider:provider-minio:system", old_binding) ∷ [];
  };
  events = [];
  resource = tt;
}

setup_rbac-ensures_example :
    let (r, w') = setup_rbac client start in
    (r ≡ ok tt)
    × (lookup system_role.name w'.outside.roles ≡ some system_role)
    × (lookup edit_role.name w'.outside.roles ≡ some edit_role)
    × (lookup view_role.name w'.outside.roles ≡ some view_role)
    × (lookup system_binding.name w'.outside.bindings ≡ some old_binding)
unfolding system_binding lookup system_role edit_role view_role
setup_rbac-ensures_example = setup_rbac-ensures client serving start
