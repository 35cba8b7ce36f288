-- ===== src/Reconcile/PolicyArrival.antt =====
-- From a round that writes the document of a Policy to one that stays as it is specified.
use provider_minio.Base.GoMap.{GoMap}
use provider_minio.Runtime.{is_ok, allowed, ok, World}
use provider_minio.Base.{
  String, is_empty, ◌≡◌, sym, ap, ◌∙◌, ◌⊎◌, inl, inr, true, false, ◌&&◌, arith,
}
use provider_minio.Apis.Policy.{Policy}
use provider_minio.Apis.Managed.{Managed, narrow, policy}
use provider_minio.Client.Admin.{Admin}
use provider_minio.Client.Iam.{Iam}
use provider_minio.Policy
use provider_minio.Policy.Convergence.{IsLawful, policy_create-observe, policy_update-observe}
use provider_minio.Policy.Webhook.{validate_create}
use provider_minio.Reconcile.Client.{policy_client}
use provider_minio.Reconcile.Rounds.{settled, Rounds, created_by, updated_by}
use provider_minio.Reconcile.Settled.{is_named, policy_client-StaysSettled}
use provider_minio.Reconcile.Arrival.{success-ok}

-- The reconciler's world of a Policy.
abbrev pub of_policy : {S : Type 0} → World S Policy → World S Managed
of_policy w = record { outside = w.outside; events = w.events; resource = policy w.resource }

module _ {S P : Type 0} (admin : Admin S) (iam : Iam P) (law : IsLawful admin iam) where
  observe_spec :
      (w : World S Policy)
      → let seen = (Policy.Observe.observe admin iam w).1 in
        (seen.resource.spec ≡ w.resource.spec)
        × (validate_create seen.resource ≡ validate_create w.resource)
  unfolding Policy.Observe.observe validate_create
  observe_spec w = (ground arith, ground arith)

  -- The round has written the document: it is a Create, or an Update of a Policy that has one, with
  -- success, which leaves what is given.
  abbrev pub HasWritten : World S Policy → World S Managed → Type 0
  HasWritten w v =
      let client = policy_client admin iam in
      ((is_ok (created_by client (of_policy w)).0 ≡ true)
        × (v ≡ (created_by client (of_policy w)).1))
      ⊎ ((is_ok (updated_by client (of_policy w)).0 ≡ true)
          × (v ≡ (updated_by client (of_policy w)).1)
          × ((is_empty w.resource.spec.for_provider.allow_bucket
                && is_empty w.resource.spec.for_provider.raw_policy)
              ≡ false))

  written-settled :
      (w : World S Policy) {v : World S Managed} (policies : GoMap String)
      → validate_create w.resource ≡ allowed
      → HasWritten w v
      → admin.list_canned_policies v.outside ≡ ok policies
      → ((policy_client admin iam).observe v).0 ≡ ok settled
  unfolding policy_client narrow
  written-settled w policies admitted (inl (success, at)) listed =
      let seen = (Policy.Observe.observe admin iam w).1 in
      let (n, made) = success-ok (Policy.Create.create admin iam seen).0 success in
      let (spec, verdict) = observe_spec w in
      ap (λ v. ((policy_client admin iam).observe v).0) at
      ∙ policy_create-observe admin iam law seen policies (verdict ∙ admitted) made
          (ap (λ v. admin.list_canned_policies v.outside) (sym at) ∙ listed)
  written-settled w policies admitted (inr (success, at, full)) listed =
      let seen = (Policy.Observe.observe admin iam w).1 in
      let (n, made) = success-ok (Policy.Update.update admin iam seen).0 success in
      let (spec, verdict) = observe_spec w in
      ap (λ v. ((policy_client admin iam).observe v).0) at
      ∙ policy_update-observe admin iam law seen policies (verdict ∙ admitted)
          (ground (arith, spec, full)) made
          (ap (λ v. admin.list_canned_policies v.outside) (sym at) ∙ listed)

  named : (w : World S Policy) {v : World S Managed} → HasWritten w v → is_named v.resource ≡ true
  unfolding policy_client narrow
  named w (inl (success, at)) = ap (λ v. is_named v.resource) at
  named w (inr (success, at, full)) = ap (λ v. is_named v.resource) at

  -- A round that writes the document of a Policy with success, which the webhook admits, where the
  -- policies can be listed after it, is the last one that changes anything: Observe finds the Policy up
  -- to date after it and after any rounds that follow.
  pub policy_writing_settles :
      (w : World S Policy) {v v' : World S Managed} (policies : GoMap String)
      → validate_create w.resource ≡ allowed
      → HasWritten w v
      → admin.list_canned_policies v.outside ≡ ok policies
      → Rounds (policy_client admin iam) v v'
      → (v'.outside ≡ v.outside)
        × (v'.events ≡ v.events)
        × (((policy_client admin iam).observe v').0 ≡ ok settled)
  policy_writing_settles w {v} {v'} policies admitted written listed rounds =
      policy_client-StaysSettled admin iam v v' (named w written)
        (written-settled w policies admitted written listed) rounds
