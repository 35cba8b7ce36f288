-- ===== src/User/Keeping.antt =====
-- Which users MinIO has after Create and Update.
use provider_minio.Base.GoMap.{GoMap, has_key}
use provider_minio.Runtime.{is_ok, ok, World, Result-cases, M, call, emit, ◌>>◌}
use provider_minio.Base.{Option-cases, String, ◌≡◌, ◌⊎◌, inl, inr, Bool, true, false, arith, List}
use provider_minio.Apis.User.{User, get_user_name}
use provider_minio.Client.Admin.{Admin, UserInfo, Generate}
use provider_minio.Client.Kube.{Kube}
use provider_minio.User.Policies.{set_user_policies}
use provider_minio.User.Create.{create, set_created}
use provider_minio.User.Update.{update, detach_policies, restore_credentials}

-- What is relied on: the listing tells which users there are, one that was added is there, the others
-- stay, and the generator of passwords does not touch them.
pub record IsKeeping {S : Type 0} (admin : Admin S) (generate : Generate S) : Type 0 where
  pub has : S → String → Bool
  pub listed :
      (s : S) (users : GoMap UserInfo) (name : String)
      → admin.list_users s ≡ ok users
      → has_key name users ≡ has s name
  pub generated : (s : S) (name : String) → has (generate 64 5 0 false true s).1 name ≡ has s name
  pub added :
      (s : S) (name key : String)
      → (admin.add_user s name key).0 ≡ ok tt
      → has (admin.add_user s name key).1 name ≡ true
  pub after_adding :
      (s : S) (name other key : String)
      → has s name ≡ true
      → has (admin.add_user s other key).1 name ≡ true
  pub after_setting :
      (s : S) (name access_key secret_key status : String)
      → has s name ≡ true
      → has (admin.set_user s access_key secret_key status).1 name ≡ true
  pub after_attaching :
      (s : S) (name other : String) (policies : List String)
      → has s name ≡ true
      → has (admin.attach_policy s policies other).1 name ≡ true
  pub after_detaching :
      (s : S) (name other : String) (policies : List String)
      → has s name ≡ true
      → has (admin.detach_policy s policies other).1 name ≡ true

-- The object stays as it was where its creation fails or panics.
pub create_resource :
    {S : Type 0} (admin : Admin S) (generate : Generate S) (w : World S User)
    → ((is_ok (create admin generate w).0 ≡ true)
        ⊎ ((create admin generate w).1.resource ≡ w.resource))
      × (get_user_name (create admin generate w).1.resource ≡ get_user_name w.resource)
unfolding create set_created get_user_name
create_resource admin generate w = elim (Option-cases w.resource.meta.annotations) [
  | inl n ↦ (ground arith, ground arith)
  | inr (a, e) ↦ (ground arith, ground arith)
]

module _ {S : Type 0} (admin : Admin S) (generate : Generate S)
    (law : IsKeeping admin generate) where
  attached-keeps :
      (name : String) (u : User) (w : World S User) (n : String)
      → law.has w.outside n ≡ true
      → law.has (set_user_policies admin name u.spec.for_provider.policies w).1.outside n ≡ true
  unfolding set_user_policies
  attached-keeps name u w n e = grind (arith, law.after_attaching)

  set_created-keeps : (w : World S User) → (set_created w).1.outside ≡ w.outside
  unfolding set_created
  set_created-keeps w = elim (Option-cases w.resource.meta.annotations) [
    | inl n ↦ ground arith
    | inr (a, e) ↦ ground arith
  ]

  -- Create after the check that there is no such user.
  abbrev with_key : User → String → M S User (Unit {0})
  with_key user key = do
    call (λ s. admin.add_user s (get_user_name user) key)
    set_user_policies admin (get_user_name user) user.spec.for_provider.policies
    emit "Created" "User successfully created"
    set_created

  with_key-keeps :
      (user : User) (key : String) (w : World S User) (n : String)
      → law.has w.outside n ≡ true
      → law.has (with_key user key w).1.outside n ≡ true
  with_key-keeps user key w n e =
      let name = get_user_name user in
      let w₁ : World S User = record w { outside = (admin.add_user w.outside name key).1 } in
      let w₂ = (set_user_policies admin name user.spec.for_provider.policies w₁).1 in
      let w₃ : World S User = (emit "Created" "User successfully created" w₂).1 in
      ground (
        arith,
        law.after_adding w.outside n name key,
        attached-keeps name user w₁ n,
        set_created-keeps w₃,
      )

  with_key-adds :
      (user : User) (key : String) (w : World S User)
      → is_ok (with_key user key w).0 ≡ true
      → law.has (with_key user key w).1.outside (get_user_name user) ≡ true
  with_key-adds user key w h =
      let name = get_user_name user in
      let w₁ : World S User = record w { outside = (admin.add_user w.outside name key).1 } in
      let w₂ = (set_user_policies admin name user.spec.for_provider.policies w₁).1 in
      let w₃ : World S User = (emit "Created" "User successfully created" w₂).1 in
      ground (
        arith,
        law.added w.outside name key,
        attached-keeps name user w₁ name,
        set_created-keeps w₃,
      )

  -- What was there is there after Create, and after a success, which found no such user, so is the user.
  pub create-keeps :
      (w : World S User) (n : String)
      → law.has w.outside n ≡ true
      → law.has (create admin generate w).1.outside n ≡ true
  unfolding create
  create-keeps w n e =
      let made = generate 64 5 0 false true w.outside in
      let w₁ : World S User = record w { outside = made.1 } in
      let still = law.generated w.outside n in
      elim (Result-cases made.0) [
        | inl (key, g) ↦ ground (arith, still, with_key-keeps w.resource key w₁ n)
        | inr (inl (failed, g)) ↦ ground (arith, still)
        | inr (inr g) ↦ ground (arith, still)
      ]

  pub create-adds :
      (w : World S User)
      → is_ok (create admin generate w).0 ≡ true
      → (law.has w.outside (get_user_name w.resource) ≡ false)
        × (law.has (create admin generate w).1.outside (get_user_name w.resource) ≡ true)
  unfolding create
  create-adds w h =
      let made = generate 64 5 0 false true w.outside in
      let w₁ : World S User = record w { outside = made.1 } in
      let name = get_user_name w.resource in
      let still = law.generated w.outside name in
      elim (Result-cases made.0) [
        | inl (key, g) ↦ elim (Result-cases (admin.list_users made.1)) [
          | inl (users, l) ↦
              let told = law.listed made.1 users name l in
              (ground (arith, still, told), ground (arith, with_key-adds w.resource key w₁))
          | inr (inl (failed, l)) ↦ absurd (ground arith)
          | inr (inr l) ↦ absurd (ground arith)
        ]
        | inr (inl (failed, g)) ↦ absurd (ground arith)
        | inr (inr g) ↦ absurd (ground arith)
      ]

  module _ (kube : Kube S) where
    detached-keeps :
        (u : User) (info : UserInfo) (w : World S User) (n : String)
        → law.has w.outside n ≡ true
        → law.has (detach_policies admin kube u info w).1.outside n ≡ true
    unfolding detach_policies
    detached-keeps u info w n e = grind (arith, law.after_detaching)

    restored-keeps :
        (u : User) (w : World S User) (n : String)
        → law.has w.outside n ≡ true
        → law.has (restore_credentials admin kube u w).1.outside n ≡ true
    unfolding restore_credentials
    restored-keeps u w n e = grind (arith, law.after_setting)

    restored-resource :
        (u : User) (w : World S User) → (restore_credentials admin kube u w).1.resource ≡ w.resource
    unfolding restore_credentials
    restored-resource u w = ground arith

    pub update-keeps :
        (w : World S User) (n : String)
        → law.has w.outside n ≡ true
        → law.has (update admin kube w).1.outside n ≡ true
    unfolding update
    update-keeps w n e =
        let user = w.resource in
        elim (Result-cases (admin.get_user_info w.outside (get_user_name user))) [
          | inl (info, i) ↦
              let w₁ = (detach_policies admin kube user info w).1 in
              let w₂ =
                (set_user_policies admin (get_user_name user) user.spec.for_provider.policies
                  w₁).1 in
              ground (
                arith,
                detached-keeps user info w n,
                attached-keeps (get_user_name user) user w₁ n,
                restored-keeps user w₂ n,
              )
          | inr (inl (failed, i)) ↦ ground arith
          | inr (inr i) ↦ ground arith
        ]

    pub update-resource : (w : World S User) → (update admin kube w).1.resource ≡ w.resource
    unfolding update detach_policies set_user_policies restore_credentials
    update-resource w = ground arith
