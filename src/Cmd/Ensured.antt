-- ===== src/Cmd/Ensured.antt =====
-- What holds of the roles after `setupRBAC`.
use provider_minio.Runtime.{Error, Result, ok, err, World}
use provider_minio.Base.{
  none, Option-cases, Bool-cases, eq_refl, if◌then◌else◌, ◌==◌, String, ◌≡◌, refl, ap, ◌∙◌, inl,
  inr, Bool, true, false, Option, some, arith,
}
use provider_minio.Client.Rbac.{ClusterRole, ClusterRoleBinding, RbacClient}
use provider_minio.Cmd.Rbac.{
  system_role, system_binding, edit_role, view_role, create_or_have, try_call, setup_rbac,
}

-- Objects with names, kept in a state, with the calls that create and update them. What is relied on: a
-- creation succeeds where there is no object of the name, and otherwise fails as there is one and
-- changes nothing about it; an update of an object is accepted and replaces it where the new one may
-- take the place of the old one (`may`), and is refused where not, and the old one stays; and objects
-- of other names stay as they are.
pub record IsStore {S X : Type 0} (name_of : X → String) (may : X → X → Bool)
    (create update : S → X → Result (Unit {0}) × S) (is_already_exists : Error → Bool)
    (at : S → String → Option X) : Type 0 where
  pub created :
      (s : S) (x : X)
      → at s (name_of x) ≡ none
      → ((create s x).0 ≡ ok tt) × (at (create s x).1 (name_of x) ≡ some x)
  pub taken :
      (s : S) (x old : X)
      → at s (name_of x) ≡ some old
      → ((e : Error) × ((create s x).0 ≡ err e) × (is_already_exists e ≡ true))
        × (at (create s x).1 (name_of x) ≡ some old)
  pub updated :
      (s : S) (x old : X)
      → at s (name_of x) ≡ some old
      → may old x ≡ true
      → ((update s x).0 ≡ ok tt) × (at (update s x).1 (name_of x) ≡ some x)
  pub refused :
      (s : S) (x old : X)
      → at s (name_of x) ≡ some old
      → may old x ≡ false
      → ((e : Error) × ((update s x).0 ≡ err e)) × (at (update s x).1 (name_of x) ≡ some old)
  pub created_frame :
      (s : S) (x : X) (name : String)
      → (name_of x == name) ≡ false
      → at (create s x).1 name ≡ at s name
  pub updated_frame :
      (s : S) (x : X) (name : String)
      → (name_of x == name) ≡ false
      → at (update s x).1 name ≡ at s name

-- A role can always be replaced, and a binding by one to the same role: `roleRef` is immutable.
abbrev pub may_replace_role : ClusterRole → ClusterRole → Bool
may_replace_role old new = true

abbrev pub may_replace_binding : ClusterRoleBinding → ClusterRoleBinding → Bool
may_replace_binding old new = old.role_name == new.role_name

module _ {S : Type 0} (rbac : RbacClient S) where
  -- The API server keeps roles and bindings, apart from each other.
  pub record IsServing : Type 0 where
    pub role_at : S → String → Option ClusterRole
    pub binding_at : S → String → Option ClusterRoleBinding
    pub roles :
        IsStore
          (λ r. r.name)
          may_replace_role
          rbac.create_role
          rbac.update_role
          rbac.is_already_exists
          role_at
    pub bindings :
        IsStore
          (λ b. b.name)
          may_replace_binding
          rbac.create_binding
          rbac.update_binding
          rbac.is_already_exists
          binding_at
    pub create_role_frame :
        (s : S) (r : ClusterRole) (name : String)
        → binding_at (rbac.create_role s r).1 name ≡ binding_at s name
    pub update_role_frame :
        (s : S) (r : ClusterRole) (name : String)
        → binding_at (rbac.update_role s r).1 name ≡ binding_at s name
    pub create_binding_frame :
        (s : S) (b : ClusterRoleBinding) (name : String)
        → role_at (rbac.create_binding s b).1 name ≡ role_at s name
    pub update_binding_frame :
        (s : S) (b : ClusterRoleBinding) (name : String)
        → role_at (rbac.update_binding s b).1 name ≡ role_at s name

  -- The state after both calls on an object.
  abbrev written : {X : Type 0} (create update : S → X → Result (Unit {0}) × S) → S → X → S
  written create update s x = (update (create s x).1 x).1

  -- What is there of a name once an object was written over what there was.
  abbrev pub replaced : {X : Type 0} → (X → X → Bool) → Option X → X → X
  replaced may none x = x
  replaced may (some old) x = if may old x then x else old

  module _ {X : Type 0} (name_of : X → String) (may : X → X → Bool)
      (same : (x : X) → may x x ≡ true) (create update : S → X → Result (Unit {0}) × S)
      (at : S → String → Option X)
      (law : IsStore name_of may create update rbac.is_already_exists at) where
    written_there :
        (s : S) (x : X)
        → at (written create update s x) (name_of x) ≡ some (replaced may (at s (name_of x)) x)
    written_there s x = elim (Option-cases (at s (name_of x))) [
      | inl n ↦ ground (arith, law.updated (create s x).1 x x (law.created s x n).1 (same x))
      | inr (old, e) ↦
          let there = (law.taken s x old e).1 in
          elim (Bool-cases (may old x)) [
            | inl fits ↦ ground (arith, law.updated (create s x).1 x old there fits)
            | inr unfit ↦ ground (arith, law.refused (create s x).1 x old there unfit)
          ]
    ]

    written_frame :
        (s : S) (x : X) (name : String)
        → (name_of x == name) ≡ false
        → at (written create update s x) name ≡ at s name
    written_frame s x name d =
        law.updated_frame (create s x).1 x name d ∙ law.created_frame s x name d

    had :
        {R : Type 0} (w : World S R) (x : X)
        → create_or_have rbac (λ s. create s x) w
          ≡ (ok tt, record w { outside = (create w.outside x).1 })
    unfolding create_or_have
    had w x = elim (Option-cases (at w.outside (name_of x))) [
      | inl n ↦ ground (arith, law.created w.outside x n)
      | inr (old, e) ↦ let ((f, failed, there), _) = law.taken w.outside x old e in ground arith
    ]

    tried :
        {R : Type 0} (w : World S R) (x : X)
        → try_call rbac (λ s. create s x) w ≡ (ok tt, record w { outside = (create w.outside x).1 })
    unfolding try_call
    tried w x = elim (Option-cases (at w.outside (name_of x))) [
      | inl n ↦ ground (arith, law.created w.outside x n)
      | inr (old, e) ↦ let ((f, failed, there), _) = law.taken w.outside x old e in ground arith
    ]

    put_back :
        {R : Type 0} (w : World S R) (s : S) (x : X)
        → try_call rbac (λ s. update s x) (record w { outside = (create s x).1 })
          ≡ (ok tt, record w { outside = written create update s x })
    unfolding try_call
    put_back w s x = elim (Option-cases (at s (name_of x))) [
      | inl n ↦ ground (arith, law.updated (create s x).1 x x (law.created s x n).1 (same x))
      | inr (old, e) ↦
          let there = (law.taken s x old e).1 in
          elim (Bool-cases (may old x)) [
            | inl fits ↦ ground (arith, law.updated (create s x).1 x old there fits)
            | inr unfit ↦
                let ((f, failed), _) = law.refused (create s x).1 x old there unfit in ground arith
          ]
    ]

  module _ (law : IsServing) where
    abbrev role_written : S → ClusterRole → S
    role_written = written rbac.create_role rbac.update_role

    abbrev binding_written : S → ClusterRoleBinding → S
    binding_written = written rbac.create_binding rbac.update_binding

    -- The state after all calls.
    abbrev final : S → S
    final s =
        let s₁ = binding_written (role_written s system_role) system_binding in
        role_written (role_written s₁ edit_role) view_role

    setup-final :
        {R : Type 0} (w : World S R)
        → setup_rbac rbac w ≡ (ok tt, record w { outside = final w.outside })
    unfolding setup_rbac
    setup-final {R} w =
        let s₁ = role_written w.outside system_role in
        let s₂ = binding_written s₁ system_binding in
        let s₃ = role_written s₂ edit_role in
        let made = λ (w : World S R) (r : ClusterRole).
          tried (λ r. r.name) may_replace_role (λ r. refl) rbac.create_role rbac.update_role
            law.role_at law.roles w r in
        let put = λ (s : S) (r : ClusterRole).
          put_back (λ r. r.name) may_replace_role (λ r. refl) rbac.create_role rbac.update_role
            law.role_at law.roles w s r in
        ground (
          arith,
          had (λ r. r.name) may_replace_role (λ r. refl) rbac.create_role rbac.update_role
              law.role_at law.roles w system_role,
          put w.outside system_role,
          had (λ b. b.name) may_replace_binding (λ b. eq_refl b.role_name) rbac.create_binding
              rbac.update_binding law.binding_at law.bindings (record w { outside = s₁ })
              system_binding,
          put_back (λ b. b.name) may_replace_binding (λ b. eq_refl b.role_name) rbac.create_binding
              rbac.update_binding law.binding_at law.bindings w s₁ system_binding,
          made (record w { outside = s₂ }) edit_role,
          put s₂ edit_role,
          made (record w { outside = s₃ }) view_role,
          put s₃ view_role,
        )

    role_there : (s : S) (r : ClusterRole) → law.role_at (role_written s r) r.name ≡ some r
    role_there s r =
        written_there (λ r. r.name) may_replace_role (λ r. refl) rbac.create_role rbac.update_role
          law.role_at law.roles s r
        ∙ ap some (replaced_role (law.role_at s r.name) r)
      where
        replaced_role :
            (old : Option ClusterRole) (r : ClusterRole) → replaced may_replace_role old r ≡ r
        replaced_role none r = refl
        replaced_role (some old) r = refl

    role_frame :
        (s : S) (r : ClusterRole) (name : String)
        → (r.name == name) ≡ false
        → law.role_at (role_written s r) name ≡ law.role_at s name
    role_frame =
        written_frame (λ r. r.name) may_replace_role (λ r. refl) rbac.create_role rbac.update_role
          law.role_at law.roles

    binding_there :
        (s : S) (b : ClusterRoleBinding)
        → law.binding_at (binding_written s b) b.name
          ≡ some (replaced may_replace_binding (law.binding_at s b.name) b)
    binding_there =
        written_there (λ b. b.name) may_replace_binding (λ b. eq_refl b.role_name)
          rbac.create_binding rbac.update_binding law.binding_at law.bindings

    role_binding_frame :
        (s : S) (r : ClusterRole) (name : String)
        → law.binding_at (role_written s r) name ≡ law.binding_at s name
    role_binding_frame s r name =
        law.update_role_frame (rbac.create_role s r).1 r name ∙ law.create_role_frame s r name

    binding_role_frame :
        (s : S) (b : ClusterRoleBinding) (name : String)
        → law.role_at (binding_written s b) name ≡ law.role_at s name
    binding_role_frame s b name =
        law.update_binding_frame (rbac.create_binding s b).1 b name
        ∙ law.create_binding_frame s b name

    -- On an API server that accepts the calls, but for a change of a binding's role, setupRBAC succeeds
    -- whatever roles and bindings there are before, and leaves the three roles exactly as the program
    -- writes them, and the binding too, unless there was one of its name to another role: that one
    -- stays as it is.
    pub setup_rbac-ensures :
        {R : Type 0} (w : World S R)
        → let (r, w') = setup_rbac rbac w in
          (r ≡ ok tt)
          × (law.role_at w'.outside system_role.name ≡ some system_role)
          × (law.role_at w'.outside edit_role.name ≡ some edit_role)
          × (law.role_at w'.outside view_role.name ≡ some view_role)
          × (law.binding_at w'.outside system_binding.name
              ≡ some (
                  replaced may_replace_binding
                    (law.binding_at w.outside system_binding.name)
                    system_binding))
    unfolding system_role edit_role view_role
    setup_rbac-ensures w =
        let s₀ = w.outside in
        let s₁ = role_written s₀ system_role in
        let s₂ = binding_written s₁ system_binding in
        let s₃ = role_written s₂ edit_role in
        let run = setup-final w in
        let at = λ (name : String). ap (λ t. law.role_at (t.1).outside name) run in
        (
          ap (λ t. t.0) run,
          at system_role.name
              ∙ role_frame s₃ view_role system_role.name refl
              ∙ role_frame s₂ edit_role system_role.name refl
              ∙ binding_role_frame s₁ system_binding system_role.name
              ∙ role_there s₀ system_role,
          at edit_role.name ∙ role_frame s₃ view_role edit_role.name refl ∙ role_there s₂ edit_role,
          at view_role.name ∙ role_there s₃ view_role,
          ap (λ t. law.binding_at (t.1).outside system_binding.name) run
              ∙ role_binding_frame s₃ view_role system_binding.name
              ∙ role_binding_frame s₂ edit_role system_binding.name
              ∙ binding_there s₁ system_binding
              ∙ ap (λ old. some (replaced may_replace_binding old system_binding))
                  (role_binding_frame s₀ system_role system_binding.name),
        )
