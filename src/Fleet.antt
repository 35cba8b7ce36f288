-- ===== src/Fleet.antt =====
-- Several objects of one kind against one MinIO, one reconciliation after the other. The reconciler of
-- crossplane-runtime calls Create only where Observe has returned that the resource does not exist,
-- and Update only where it exists and is out of date.
pub mod Alone
use provider_minio.Runtime.{Observation, Creation, no_observation, ok, World, M}
use provider_minio.Base.{if◌then◌else◌, nat_eq, ℕ, String, ◌≡◌, ◌⊎◌, Bool, true, false, []}

-- The handlers of a controller that a reconciliation of a live object calls.
pub record Handlers (S R : Type 0) : Type 0 where
  pub observe : M S R Observation
  pub create : M S R Creation
  pub update : M S R (Unit {0})

pub record Fleet (S R : Type 0) : Type 0 where
  pub outside : S
  pub objects : ℕ → R

-- A handler's world for one of the objects, and the fleet after it.
abbrev pub world_of : {S R : Type 0} → Fleet S R → ℕ → World S R
world_of f i = record { outside = f.outside; events = []; resource = f.objects i }

abbrev pub settle : {S R : Type 0} → Fleet S R → ℕ → World S R → Fleet S R
settle f i w = record {
  outside = w.outside;
  objects = λ j. if nat_eq i j then w.resource else f.objects j;
}

abbrev pub out_of_date : Observation
out_of_date = record { resource_exists = true; resource_up_to_date = false }

module _ {S R : Type 0} (h : Handlers S R) where
  -- One reconciliation of one object: a look, and Create or Update where it calls for that.
  pub data Step (f g : Fleet S R) : Type 0 where
    look : (i : ℕ) → g ≡ settle f i (h.observe (world_of f i)).1 → Step f g
    make :
        (i : ℕ)
        → (h.observe (world_of f i)).0 ≡ ok no_observation
        → g ≡ settle f i (h.create (h.observe (world_of f i)).1).1
        → Step f g
    change :
        (i : ℕ)
        → (h.observe (world_of f i)).0 ≡ ok out_of_date
        → g ≡ settle f i (h.update (h.observe (world_of f i)).1).1
        → Step f g

  pub data Reach (f : Fleet S R) : Fleet S R → Type 0 where
    here : Reach f f
    next : {g k : Fleet S R} → Reach f g → Step g k → Reach f k

-- What a reconciliation does to its object and to MinIO, for a test on what is the object's own, a name
-- for what the object stands for, and a test on what MinIO has.
pub record IsMove {S R : Type 0} (is_own : R → Bool) (name : R → String) (has : S → String → Bool)
    (w w' : World S R) : Type 0 where
  pub same_name : name w'.resource ≡ name w.resource
  pub keeps : (n : String) → has w.outside n ≡ true → has w'.outside n ≡ true
  pub claims :
      is_own w'.resource ≡ true
      → (is_own w.resource ≡ true)
        ⊎ ((has w.outside (name w.resource) ≡ false) × (has w'.outside (name w.resource) ≡ true))

-- What a controller promises on what its objects own: each of its reconciliations is such a move.
pub record IsOwning {S R : Type 0} (h : Handlers S R) : Type 0 where
  pub is_own : R → Bool
  pub name : R → String
  pub has : S → String → Bool
  pub looks : (w : World S R) → IsMove is_own name has w (h.observe w).1
  pub makes :
      (w : World S R)
      → (h.observe w).0 ≡ ok no_observation
      → IsMove is_own name has w (h.create (h.observe w).1).1
  pub changes :
      (w : World S R)
      → (h.observe w).0 ≡ ok out_of_date
      → IsMove is_own name has w (h.update (h.observe w).1).1
