-- ===== src/Reconcile/Stuck.antt =====
-- A User whose Create has added the user and failed after it.
use provider_minio.Runtime.{is_ok, no_observation, ok, World}
use provider_minio.Base.{
  Bool-cases, ◌≡◌, refl, sym, ap, ◌∙◌, subst, inl, inr, true, false, Bool, arith,
}
use provider_minio.Apis.User.{User, get_user_name}
use provider_minio.Apis.Managed.{Managed, narrow, user}
use provider_minio.Client.Admin.{Admin, Generate}
use provider_minio.Client.Kube.{Kube, Url, Dial}
use provider_minio.User
use provider_minio.User.Ownership.{is_own}
use provider_minio.User.Keeping.{IsKeeping, create_resource, create-keeps, create-adds}
use provider_minio.Reconcile.Client.{ExternalClient, user_client}
use provider_minio.Reconcile.Rounds.{Round, looked, made, changed, Rounds, here, next, created_by}

-- The reconciler's world of a User.
abbrev pub of_user : {S : Type 0} → World S User → World S Managed
of_user w = record { outside = w.outside; events = w.events; resource = user w.resource }

module _ {S : Type 0} (admin : Admin S) (generate : Generate S)
    (law : IsKeeping admin generate) where
  -- Where MinIO has the user, Create fails, and the object and the user stay.
  create-taken :
      (w : World S User)
      → law.has w.outside (get_user_name w.resource) ≡ true
      → let after = User.Create.create admin generate w in
        (is_ok after.0 ≡ false)
        × (after.1.resource ≡ w.resource)
        × (law.has after.1.outside (get_user_name w.resource) ≡ true)
  create-taken w there = elim (Bool-cases (is_ok (User.Create.create admin generate w).0)) [
    | inl success ↦ absurd (ground (arith, create-adds admin generate law w success))
    | inr failure ↦ (
      failure,
      ground (arith, create_resource admin generate w),
      create-keeps admin generate law w _ there,
    )
  ]

  module _ {Pool Cert : Type 0} (kube : Kube S) (dial : Dial S Pool Cert) (url : Url)
      (tls_settings : Bool) where
    abbrev client : ExternalClient S
    client = user_client admin kube dial url tls_settings generate

    observe-unowned :
        (w : World S User)
        → is_own w.resource ≡ false
        → User.Observe.observe admin kube dial url tls_settings w ≡ (ok no_observation, w)
    unfolding User.Observe.observe
    observe-unowned w free = ground arith

    -- MinIO has the user, and the object does not take it for its own.
    abbrev IsForeign : User → World S Managed → Type 0
    IsForeign u v =
        (w : World S User) × (v ≡ of_user w)
        × (w.resource ≡ u)
        × (law.has w.outside (get_user_name u) ≡ true)

    foreign_unseen :
        (u : User) (v : World S Managed)
        → is_own u ≡ false
        → IsForeign u v
        → client.observe v ≡ (ok no_observation, v)
    unfolding user_client narrow
    foreign_unseen u v free (w, at, same, there) =
        let seen = observe-unowned w (ap is_own same ∙ free) in
        subst (λ v. client.observe v ≡ (ok no_observation, v)) (sym at)
          (ap (λ (r, w'). (r, of_user w')) seen)

    create-IsForeign :
        (u : User) (v : World S Managed)
        → is_own u ≡ false
        → IsForeign u v
        → (is_ok (client.create v).0 ≡ false) × IsForeign u (client.create v).1
    unfolding user_client narrow
    create-IsForeign u v free (w, at, same, there) =
        let (fails, kept, stays) =
          create-taken w (ap (λ u. law.has w.outside (get_user_name u)) same ∙ there) in
        subst (λ v. (is_ok (client.create v).0 ≡ false) × IsForeign u (client.create v).1) (sym at)
          (
            fails,
            (
              (User.Create.create admin generate w).1,
              refl,
              kept ∙ same,
              ap (λ u. law.has (User.Create.create admin generate w).1.outside (get_user_name u))
                    (sym same)
                  ∙ stays,
            ),
          )

    Round-IsForeign :
        (u : User) {v v' : World S Managed}
        → is_own u ≡ false
        → IsForeign u v
        → Round client v v'
        → IsForeign u v'
    Round-IsForeign u {v} free foreign (looked e) =
        subst (IsForeign u) (sym (e ∙ ap (λ p. p.1) (foreign_unseen u v free foreign))) foreign
    Round-IsForeign u {v} free foreign (made absent e) =
        let seen = ap (λ p. (client.create p.1).1) (foreign_unseen u v free foreign) in
        subst (IsForeign u) (sym (e ∙ seen)) (create-IsForeign u v free foreign).1
    Round-IsForeign u {v} free foreign (changed stale e) =
        absurd (ground (arith, foreign_unseen u v free foreign))

    Rounds-IsForeign :
        (u : User) {v v' : World S Managed}
        → is_own u ≡ false
        → IsForeign u v
        → Rounds client v v'
        → IsForeign u v'
    Rounds-IsForeign u free foreign here = foreign
    Rounds-IsForeign u free foreign (next before last) =
        Round-IsForeign u free (Rounds-IsForeign u free foreign before) last

    -- Where Create fails or panics on a User that takes no user for its own, and the user is there after
    -- it, as after an error of AttachPolicy or where the annotations are nil, the object is stuck: after
    -- whatever rounds follow, with nobody else at work, it is as it was before, Observe reports that it
    -- does not exist, and the next Create fails.
    pub half_created_user_stuck :
        (w : World S User) {v : World S Managed}
        → is_own w.resource ≡ false
        → is_ok (User.Create.create admin generate w).0 ≡ false
        → law.has (User.Create.create admin generate w).1.outside (get_user_name w.resource) ≡ true
        → Rounds client (of_user (User.Create.create admin generate w).1) v
        → (v.resource ≡ user w.resource)
          × (client.observe v ≡ (ok no_observation, v))
          × (is_ok (created_by client v).0 ≡ false)
    half_created_user_stuck w {v} free failed there rounds =
        let after = (User.Create.create admin generate w).1 in
        let kept : after.resource ≡ w.resource = ground (arith, create_resource admin generate w) in
        let foreign = Rounds-IsForeign w.resource free (after, refl, kept, there) rounds in
        let seen = foreign_unseen w.resource v free foreign in
        let (last, at, same, _) = foreign in
        (
          ap (λ v. v.resource) at ∙ ap user same,
          seen,
          ap (λ p. is_ok (client.create p.1).0) seen
              ∙ (create-IsForeign w.resource v free foreign).0,
        )
