-- ===== src/Reconcile/Rounds.antt =====
-- The rounds of the reconciler of crossplane-runtime on one resource that is not being deleted: it
-- calls Observe; it calls Create only where Observe has returned that the resource does not exist,
-- and Update only where it exists and is out of date. Nothing else changes the outside world in
-- between, and what the reconciler itself writes to the resource is left out. deleted_by is the round
-- of a resource that is being deleted and was found.
use provider_minio.Runtime.{Error, Observation, Creation, no_observation, ok, World, M}
use provider_minio.Base.{Option-cases, ◌≡◌, refl, inl, inr, Bool, true, false, some, arith}
use provider_minio.Apis.Managed.{Managed, Kind, narrow}
use provider_minio.Reconcile.Client.{ExternalClient}

abbrev pub settled : Observation
settled = record { resource_exists = true; resource_up_to_date = true }

-- An Observe, and a Create after it.
abbrev pub created_by : {S : Type 0} → ExternalClient S → M S Managed Creation
created_by client w = client.create (client.observe w).1

-- An Observe, and a Delete after it.
abbrev pub deleted_by : {S : Type 0} → ExternalClient S → M S Managed (Unit {0})
deleted_by client w = client.delete (client.observe w).1

-- An Observe, and an Update after it.
abbrev pub updated_by : {S : Type 0} → ExternalClient S → M S Managed (Unit {0})
updated_by client w = client.update (client.observe w).1

module _ {S : Type 0} (client : ExternalClient S) where
  pub data Round (w w' : World S Managed) : Type 0 where
    looked : w' ≡ (client.observe w).1 → Round w w'
    made :
        (client.observe w).0 ≡ ok no_observation
        → w' ≡ (client.create (client.observe w).1).1
        → Round w w'
    changed :
        (client.observe w).0 ≡ ok (record { resource_exists = true; resource_up_to_date = false })
        → w' ≡ (client.update (client.observe w).1).1
        → Round w w'

  pub data Rounds (w : World S Managed) : World S Managed → Type 0 where
    here : Rounds w w
    next : {w' w'' : World S Managed} → Rounds w w' → Round w' w'' → Rounds w w''

  -- Once Observe has found a resource up to date, of those that pass the test, no round makes a call
  -- that changes MinIO or the cluster or emits an event, and Observe goes on finding it so.
  abbrev pub StaysSettled : (Managed → Bool) → Type 0
  StaysSettled fit =
      (w w' : World S Managed)
      → fit w.resource ≡ true
      → (client.observe w).0 ≡ ok settled
      → Rounds w w'
      → (w'.outside ≡ w.outside) × (w'.events ≡ w.events) × ((client.observe w').0 ≡ ok settled)

-- An Observe that only looks, and finds what it found before, on the resources that pass the test.
pub record IsQuiet {S R : Type 0} (fit : R → Bool) (observe : M S R Observation) : Type 0 where
  pub same_outside : (w : World S R) → (observe w).1.outside ≡ w.outside
  pub same_events : (w : World S R) → (observe w).1.events ≡ w.events
  pub same_fit : (w : World S R) → fit (observe w).1.resource ≡ fit w.resource
  pub again :
      (w : World S R)
      → fit w.resource ≡ true
      → (observe w).0 ≡ ok settled
      → (observe (observe w).1).0 ≡ ok settled

module _ {S R : Type 0} (kind : Kind R) (e : Error) (fit : Managed → Bool)
    (back : (r : R) → kind.cast (kind.wrap r) ≡ some r)
    (only : (m : Managed) (r : R) → kind.cast m ≡ some r → kind.wrap r ≡ m) where
  abbrev world_at : World S Managed → R → World S R
  world_at w r = record { outside = w.outside; events = w.events; resource = r }

  pub narrow-IsQuiet :
      (observe : M S R Observation)
      → IsQuiet (λ r. fit (kind.wrap r)) observe
      → IsQuiet fit (narrow kind e observe)
  unfolding narrow
  narrow-IsQuiet observe quiet = record {
    same_outside = λ w. elim (Option-cases (kind.cast w.resource)) [
      | inl none_there ↦ ground arith
      | inr (r, there) ↦ ground (arith, quiet.same_outside (world_at w r))
    ];
    same_events = λ w. elim (Option-cases (kind.cast w.resource)) [
      | inl none_there ↦ ground arith
      | inr (r, there) ↦ ground (arith, quiet.same_events (world_at w r))
    ];
    same_fit = λ w. elim (Option-cases (kind.cast w.resource)) [
      | inl none_there ↦ ground arith
      | inr (r, there) ↦ ground (arith, quiet.same_fit (world_at w r), only w.resource r there)
    ];
    again = λ w f h. elim (Option-cases (kind.cast w.resource)) [
      | inl none_there ↦ ground arith
      | inr (r, there) ↦ ground (
        arith,
        quiet.again (world_at w r),
        only w.resource r there,
        back (observe (world_at w r)).1.resource,
      )
    ];
  }

module _ {S : Type 0} (client : ExternalClient S) (fit : Managed → Bool)
    (quiet : IsQuiet fit client.observe) where
  Round-settled :
      {w w' : World S Managed}
      → (client.observe w).0 ≡ ok settled
      → Round client w w'
      → w' ≡ (client.observe w).1
  Round-settled h (looked e) = e
  Round-settled h (made absent e) = absurd (ground arith)
  Round-settled h (changed stale e) = absurd (ground arith)

  Rounds-fit :
      (w w' : World S Managed)
      → fit w.resource ≡ true
      → (client.observe w).0 ≡ ok settled
      → Rounds client w w'
      → (fit w'.resource ≡ true)
        × (w'.outside ≡ w.outside)
        × (w'.events ≡ w.events)
        × ((client.observe w').0 ≡ ok settled)
  Rounds-fit w w' f h here = (f, refl, refl, h)
  Rounds-fit w w'' f h (next {w'} before last) =
      let (fits, outside, events, found) = Rounds-fit w w' f h before in
      let e = Round-settled found last in
      ground (arith, quiet.same_outside w', quiet.same_events w', quiet.same_fit w', quiet.again w')

  pub quiet-StaysSettled : StaysSettled client fit
  quiet-StaysSettled w w' f h rounds =
      let (fits, outside, events, found) = Rounds-fit w w' f h rounds in (outside, events, found)
