-- ===== src/User/Convergence.antt =====
-- Update and the Observe after it, over a server that keeps lists of policies.
use provider_minio.Base.GoMap.{GoMap, lookup, slice_deep_equal}
use provider_minio.Runtime.{Observation, Result, ok, World, Result-cases}
use provider_minio.Base.{
  if◌then◌else◌, String, ◌≡◌, refl, ap, ◌∙◌, ◌⊎◌, inl, inr, Bool, true, false, Option, some, List,
  [], ◌∷◌, arith,
}
use provider_minio.Apis.User.{User, get_user_name}
use provider_minio.Client.Admin.{Admin, UserInfo}
use provider_minio.Client.Kube.{Kube, Url, Dial}
use provider_minio.User.Policies.{
  split_policies, equal_policies, set_user_policies, no_policies, policy_names,
}
use provider_minio.User.Listing.{
  joined, fit_names, as_slice, split_policies-joined, equal_policies-joined,
}
use provider_minio.User.Ownership.{is_own}
use provider_minio.User.Observe.{observe, check_credentials, existing}
use provider_minio.User.Update.{update, detach_policies, restore_credentials}

-- What is relied on: MinIO keeps a list of policies for each user, with fit names, and tells it as one
-- text; all of them can be detached; what is attached to a user without policies is the list in the
-- form that the server gives it; and setting a user leaves the policies alone.
pub record IsLawful {S : Type 0} (admin : Admin S) : Type 0 where
  pub canonical : List String → List String
  pub policies_of : S → String → List String
  pub fit : (s : S) (name : String) → fit_names (policies_of s name) ≡ true
  pub listed :
      (s : S) (name : String) (users : GoMap UserInfo) (info : UserInfo)
      → admin.list_users s ≡ ok users
      → lookup name users ≡ some info
      → info.policy_name ≡ joined (policies_of s name)
  pub told :
      (s : S) (name : String) (info : UserInfo)
      → admin.get_user_info s name ≡ ok info
      → info.policy_name ≡ joined (policies_of s name)
  pub detached :
      (s : S) (name : String)
      → (admin.detach_policy s (policies_of s name) name).0 ≡ ok tt
      → policies_of (admin.detach_policy s (policies_of s name) name).1 name ≡ []
  pub attached :
      (s : S) (name : String) (names : List String)
      → policies_of s name ≡ []
      → (admin.attach_policy s names name).0 ≡ ok tt
      → policies_of (admin.attach_policy s names name).1 name ≡ canonical names
  pub user_set :
      (s : S) (name access_key secret_key status : String)
      → policies_of (admin.set_user s access_key secret_key status).1 name ≡ policies_of s name

nil-cases :
    (names : List String)
    → (names ≡ []) ⊎ ((first : String) × (others : List String) × (names ≡ first ∷ others))
nil-cases [] = inl refl
nil-cases (first ∷ others) = inr (first, others, refl)

module _ {S : Type 0} (admin : Admin S) (kube : Kube S) (law : IsLawful admin) where
  -- The list of the specification, as MinIO keeps it.
  abbrev pub kept_policies : Option (List String) → List String
  kept_policies policies =
      if no_policies policies then [] else law.canonical (policy_names policies)

  detach_step :
      (user : User) (info : UserInfo) (w : World S User)
      → admin.get_user_info w.outside (get_user_name user) ≡ ok info
      → (detach_policies admin kube user info w).0 ≡ ok tt
      → law.policies_of (detach_policies admin kube user info w).1.outside (get_user_name user) ≡ []
  unfolding detach_policies
  detach_step user info w t h =
      let name = get_user_name user in
      let names : split_policies info.policy_name ≡ law.policies_of w.outside name =
        ap split_policies (law.told w.outside name info t)
        ∙ split_policies-joined _ (law.fit w.outside name) in
      elim (nil-cases (law.policies_of w.outside name)) [
        | inl none_there ↦ ground (arith, names)
        | inr (first, others, some_there) ↦ ground (arith, names, law.detached w.outside name)
      ]

  attach_step :
      (user : User) (w : World S User)
      → law.policies_of w.outside (get_user_name user) ≡ []
      → (set_user_policies admin (get_user_name user) user.spec.for_provider.policies w).0 ≡ ok tt
      → law.policies_of
          (set_user_policies admin (get_user_name user) user.spec.for_provider.policies w).1.outside
          (get_user_name user)
        ≡ kept_policies user.spec.for_provider.policies
  unfolding set_user_policies
  attach_step user w n h = ground (
    arith,
    law.attached w.outside (get_user_name user) (policy_names user.spec.for_provider.policies),
  )

  restore_frame :
      (user : User) (w : World S User) (name : String)
      → law.policies_of (restore_credentials admin kube user w).1.outside name
        ≡ law.policies_of w.outside name
  unfolding restore_credentials
  restore_frame user w name = grind (arith, law.user_set)

  -- After a successful Update MinIO keeps the list of the specification for the user, and the object
  -- is as it was.
  pub update-policies_of :
      (w : World S User)
      → (update admin kube w).0 ≡ ok tt
      → (law.policies_of (update admin kube w).1.outside (get_user_name w.resource)
          ≡ kept_policies w.resource.spec.for_provider.policies)
        × ((update admin kube w).1.resource ≡ w.resource)
  unfolding update
  update-policies_of w h =
      let user = w.resource in
      let name = get_user_name user in
      elim (Result-cases (admin.get_user_info w.outside name)) [
        | inl (info, t) ↦
            let w₁ = (detach_policies admin kube user info w).1 in
            let w₂ = (set_user_policies admin name user.spec.for_provider.policies w₁).1 in
            (
              ground (
                arith,
                detach_step user info w t,
                attach_step user w₁,
                restore_frame user w₂ name,
              ),
              ground arith,
            )
        | inr (inl (e, t)) ↦ absurd (ground arith)
        | inr (inr t) ↦ absurd (ground arith)
      ]

  module _ {Pool Cert : Type 0} (dial : Dial S Pool Cert) (url : Url) (tls_settings : Bool) where
    -- The trial of the credentials of a user in a state of the outside world.
    abbrev pub trial : World S User → User → Result Observation
    trial w user = (check_credentials admin kube dial url tls_settings user w).0

    observe_listed :
        (w : World S User) (users : GoMap UserInfo) (info : UserInfo)
        → is_own w.resource ≡ true
        → admin.list_users w.outside ≡ ok users
        → lookup (get_user_name w.resource) users ≡ some info
        → (observe admin kube dial url tls_settings w).0
          ≡ (if equal_policies info w.resource then trial w w.resource else ok (existing false))
    unfolding observe check_credentials
    observe_listed w users info own l f = ground arith

    -- After a successful Update of a user of its own that MinIO still lists, Observe goes on to the
    -- trial of the credentials where the list of the specification is nil, or is not empty and in the
    -- form in which the server gives it; any other list, the empty one that is not nil among them,
    -- counts as out of date.
    pub user_update-observe :
        (w : World S User) (users : GoMap UserInfo) (info : UserInfo)
        → let w' = (update admin kube w).1 in
          let policies = w.resource.spec.for_provider.policies in
          is_own w.resource ≡ true
          → (update admin kube w).0 ≡ ok tt
          → admin.list_users w'.outside ≡ ok users
          → lookup (get_user_name w.resource) users ≡ some info
          → (observe admin kube dial url tls_settings w').0 ≡ (
              if slice_deep_equal (as_slice (kept_policies policies)) policies
              then trial w' w.resource
              else ok (existing false))
    user_update-observe w users info own h l f =
        let w' = (update admin kube w).1 in
        let (kept, same) = update-policies_of w h in
        let name = get_user_name w.resource in
        observe_listed w' users info (ap is_own same ∙ own) l
          (ap (λ (u : User). lookup (get_user_name u) users) same ∙ f)
        ∙ ground (
          arith,
          same,
          ap (λ (u : User). trial w' u) same,
          ap (equal_policies info) same,
          equal_policies-joined (law.policies_of w'.outside name) info w.resource
              (law.fit w'.outside name) (law.listed w'.outside name users info l f),
          ap as_slice kept,
        )
