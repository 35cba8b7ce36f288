-- ===== src/ServiceAccount/Drift.antt =====
-- When an account counts as up to date, and what an Update can bring back in line.
use provider_minio.Runtime.{Observation, ok, World}
use provider_minio.Base.{
  ◌||◌, ◌==◌, Bool-cases, inl, inr, is_empty, is_some, ℕ, String, ◌≡◌, refl, sym, ap, ◌∙◌, ◌↔◌, ◌⊎◌,
  Bool, true, false, Option, none, some, arith, eq_iff,
}
use provider_minio.Apis.ServiceAccount.{ServiceAccount, ServiceAccountParameters}
use provider_minio.Client.Admin.{Admin, InfoServiceAccountResp, UpdateServiceAccountReq}
use provider_minio.ServiceAccount.Identity.{get_external_name}
use provider_minio.ServiceAccount.Observe.{observe, is_up_to_date, same_expiration}
use provider_minio.ServiceAccount.Update.{update, update_request}

same_expiration_iff : (a b : Option ℕ) → (same_expiration a b ≡ true) ↔ (a ≡ b)
unfolding same_expiration
same_expiration_iff none none = (λ h. refl, λ h. refl)
same_expiration_iff (some t) (some u) = (λ h. ground arith, λ h. ground arith)
same_expiration_iff none (some u) = (λ h. cc, λ h. cc)
same_expiration_iff (some t) none = (λ h. cc, λ h. cc)

-- An account is up to date exactly when its policy is the specified one, if one is specified, and
-- its expiration is the specified one, or both are missing. Nothing else is compared: not the name,
-- the description or the secret key.
is_up_to_date_iff :
    (spec : ServiceAccountParameters) (info : InfoServiceAccountResp)
    → (is_up_to_date spec info ≡ true)
      ↔ (((spec.policy ≡ "") ⊎ (spec.policy ≡ info.policy)) × (spec.expiration ≡ info.expiration))
unfolding is_up_to_date
is_up_to_date_iff spec info = ground (
  arith,
  eq_iff spec.policy "",
  eq_iff spec.policy info.policy,
  same_expiration_iff spec.expiration info.expiration,
)

abbrev pub observed : Bool → Observation
observed latest = record { resource_exists = true; resource_up_to_date = latest }

not_up_to_date :
    (spec : ServiceAccountParameters) (info : InfoServiceAccountResp)
    → spec.expiration ≡ none
    → {t : ℕ} → info.expiration ≡ some t
    → is_up_to_date spec info ≡ false
unfolding is_up_to_date
not_up_to_date spec info n e = ground arith

-- What is relied on: a request that leaves the expiration out leaves it as it is, and another one
-- sets it.
pub record KeepsExpiration {S : Type 0} (admin : Admin S) : Type 0 where
  pub expiring :
      (s : S) (key : String) (req : UpdateServiceAccountReq) (before after : InfoServiceAccountResp)
      → (admin.update_service_account s key req).0 ≡ ok tt
      → admin.info_service_account s key ≡ ok before
      → admin.info_service_account (admin.update_service_account s key req).1 key ≡ ok after
      → after.expiration ≡ elim req.new_expiration [ none ↦ before.expiration | some t ↦ some t ]

-- What is relied on of a policy that a request sets: it is read back in the form that the server gives
-- it.
pub record SetsPolicy {S : Type 0} (admin : Admin S) : Type 0 where
  pub canonical : String → String
  pub policy_set :
      (s : S) (key policy : String) (req : UpdateServiceAccountReq) (after : InfoServiceAccountResp)
      → (admin.update_service_account s key req).0 ≡ ok tt
      → req.new_policy ≡ some policy
      → admin.info_service_account (admin.update_service_account s key req).1 key ≡ ok after
      → after.policy ≡ canonical policy

module _ {S : Type 0} (admin : Admin S) where
  -- Observe finds the account of the external name, and up to date exactly when `is_up_to_date`
  -- says so; nothing outside is changed and no event is emitted.
  pub account_observe_found :
      (w : World S ServiceAccount) {info : InfoServiceAccountResp}
      → let key = get_external_name w.resource.meta in
        is_empty key ≡ false
        → admin.info_service_account w.outside key ≡ ok info
        → let (r, w') = observe admin w in
          (r
            ≡ ok (record {
              resource_exists = true;
              resource_up_to_date = is_up_to_date w.resource.spec.for_provider info;
            }))
          × (w'.outside ≡ w.outside)
          × (w'.events ≡ w.events)
          × (w'.resource.spec ≡ w.resource.spec)
          × (w'.resource.meta ≡ w.resource.meta)
  unfolding observe
  account_observe_found w named found = ground arith

  -- What a successful Update has done.
  update_runs :
      (w : World S ServiceAccount)
      → (update admin w).0 ≡ ok tt
      → let key = get_external_name w.resource.meta in
        let called =
          admin.update_service_account w.outside key
            (update_request w.resource.spec.for_provider) in
        (is_empty key ≡ false)
        × (called.0 ≡ ok tt)
        × ((update admin w).1.outside ≡ called.1)
        × ((update admin w).1.resource ≡ w.resource)
  unfolding update
  update_runs w h = ground arith

  -- What Observe says after an Update, by what MinIO has then.
  observe_updated :
      (w : World S ServiceAccount) {after : InfoServiceAccountResp} {latest : Bool}
      → (update admin w).0 ≡ ok tt
      → admin.info_service_account (update admin w).1.outside (get_external_name w.resource.meta)
        ≡ ok after
      → is_up_to_date w.resource.spec.for_provider after ≡ latest
      → (observe admin (update admin w).1).0 ≡ ok (observed latest)
  observe_updated w {after} h a latest =
      let (named, _, _, same) = update_runs w h in
      (account_observe_found (update admin w).1
        (ap (λ (r : ServiceAccount). is_empty (get_external_name r.meta)) same ∙ named)
        (ap
            (λ (r : ServiceAccount).
              admin.info_service_account (update admin w).1.outside (get_external_name r.meta))
            same
          ∙ a)).0
      ∙ ap (λ (b : Bool). ok (observed b))
          (ap (λ (r : ServiceAccount). is_up_to_date r.spec.for_provider after) same ∙ latest)

  module _ (law : KeepsExpiration admin) where
    -- The expiration after a successful Update.
    expiration-update :
        (w : World S ServiceAccount) (before after : InfoServiceAccountResp)
        → let key = get_external_name w.resource.meta in
          admin.info_service_account w.outside key ≡ ok before
          → (update admin w).0 ≡ ok tt
          → admin.info_service_account (update admin w).1.outside key ≡ ok after
          → after.expiration ≡ (elim w.resource.spec.for_provider.expiration [
            | none ↦ before.expiration
            | some t ↦ some t
          ])
    unfolding update_request
    expiration-update w before after b h a =
        let (_, called, outside, _) = update_runs w h in
        let key = get_external_name w.resource.meta in
        law.expiring w.outside key (update_request w.resource.spec.for_provider) before after called
          b (ap (λ s. admin.info_service_account s key) (sym outside) ∙ a)

    -- An expiration that was taken out of the specification is never taken off the account: after
    -- any successful Update the account is as little up to date as before.
    pub update_keeps_expiration :
        (w : World S ServiceAccount) {before after : InfoServiceAccountResp} {t : ℕ}
        → let key = get_external_name w.resource.meta in
          w.resource.spec.for_provider.expiration ≡ none
          → before.expiration ≡ some t
          → admin.info_service_account w.outside key ≡ ok before
          → (update admin w).0 ≡ ok tt
          → admin.info_service_account (update admin w).1.outside key ≡ ok after
          → (observe admin (update admin w).1).0 ≡ ok (observed false)
    update_keeps_expiration w {before} {after} {t} n e b h a =
        let expiration = expiration-update w before after b h a in
        observe_updated w h a
          (not_up_to_date w.resource.spec.for_provider after n {t = t} (ground arith))

    module _ (sets : SetsPolicy admin) where
      -- The policy after a successful Update, where one is specified.
      policy-update :
          (w : World S ServiceAccount) (after : InfoServiceAccountResp)
          → let policy = w.resource.spec.for_provider.policy in
            is_empty policy ≡ false
            → (update admin w).0 ≡ ok tt
            → admin.info_service_account
                (update admin w).1.outside
                (get_external_name w.resource.meta)
              ≡ ok after
            → after.policy ≡ sets.canonical policy
      unfolding update_request
      policy-update w after given h a =
          let (_, called, outside, _) = update_runs w h in
          let key = get_external_name w.resource.meta in
          let spec = w.resource.spec.for_provider in
          sets.policy_set w.outside key spec.policy (update_request spec) after called
            (ground arith) (ap (λ s. admin.info_service_account s key) (sym outside) ∙ a)

      -- After a successful Update of an account whose specification has an expiration, or which had
      -- none, the account is up to date exactly where no policy is specified, or one in the form in
      -- which the server returns it.
      pub account_update-observe :
          (w : World S ServiceAccount) {before after : InfoServiceAccountResp}
          → let key = get_external_name w.resource.meta in
            let spec = w.resource.spec.for_provider in
            admin.info_service_account w.outside key ≡ ok before
            → (update admin w).0 ≡ ok tt
            → admin.info_service_account (update admin w).1.outside key ≡ ok after
            → (is_some spec.expiration ≡ true) ⊎ (before.expiration ≡ none)
            → (observe admin (update admin w).1).0
              ≡ ok (observed (is_empty spec.policy || sets.canonical spec.policy == spec.policy))
      unfolding is_up_to_date
      account_update-observe w {before} {after} b h a c =
          let spec = w.resource.spec.for_provider in
          let expiration = expiration-update w before after b h a in
          let same : same_expiration spec.expiration after.expiration ≡ true =
            (same_expiration_iff spec.expiration after.expiration).1 (ground arith) in
          observe_updated w h a (elim (Bool-cases (is_empty spec.policy)) [
            | inl unset ↦ ground (arith, same)
            | inr given ↦ ground (
              arith,
              same,
              policy-update w after given h a,
              eq_iff spec.policy (sets.canonical spec.policy),
              eq_iff (sets.canonical spec.policy) spec.policy,
            )
          ])
