-- ===== src/Fleet/Alone.antt =====
-- Along the reconciliations of a fleet, what an object owns is there, and is its own alone.
use provider_minio.Runtime.{World}
use provider_minio.Base.{nat_eq, Bool-cases, ℕ, ◌≡◌, sym, subst, true, false, inl, inr, arith}
use provider_minio.Fleet.{
  Handlers, Fleet, world_of, settle, Step, look, make, change, Reach, here, next, IsMove, IsOwning,
}

module _ {S R : Type 0} (h : Handlers S R) (owning : IsOwning h) where
  open owning use {is_own, name, has}

  abbrev Moves : World S R → World S R → Type 0
  Moves w w' = IsMove is_own name has w w'

  -- What an object owns is there, and no two objects own the same.
  record IsSound (f : Fleet S R) : Type 0 where
    owned : (i : ℕ) → is_own (f.objects i) ≡ true → has f.outside (name (f.objects i)) ≡ true
    alone :
        (i j : ℕ)
        → is_own (f.objects i) ≡ true
        → is_own (f.objects j) ≡ true
        → name (f.objects i) ≡ name (f.objects j)
        → i ≡ j

  settle-owned :
      (f : Fleet S R) (i : ℕ) (w : World S R)
      → IsSound f
      → Moves (world_of f i) w
      → (j : ℕ) → is_own ((settle f i w).objects j) ≡ true
      → has w.outside (name ((settle f i w).objects j)) ≡ true
  settle-owned f i w sound move j p = elim (Bool-cases (nat_eq i j)) [
    | inl e ↦
        ground (arith, sound.owned i, move.claims, move.same_name, move.keeps (name (f.objects i)))
    | inr e ↦ ground (arith, sound.owned j, move.keeps (name (f.objects j)))
  ]

  settle-alone :
      (f : Fleet S R) (i : ℕ) (w : World S R)
      → IsSound f
      → Moves (world_of f i) w
      → (j k : ℕ) → is_own ((settle f i w).objects j) ≡ true
      → is_own ((settle f i w).objects k) ≡ true
      → name ((settle f i w).objects j) ≡ name ((settle f i w).objects k)
      → j ≡ k
  settle-alone f i w sound move j k p q r = elim (Bool-cases (nat_eq i j)) [
    | inl e ↦ elim (Bool-cases (nat_eq i k)) [
      | inl d ↦ ground arith
      | inr d ↦ ground (arith, sound.alone i k, sound.owned k, move.claims, move.same_name)
    ]
    | inr e ↦ elim (Bool-cases (nat_eq i k)) [
      | inl d ↦ ground (arith, sound.alone j i, sound.owned j, move.claims, move.same_name)
      | inr d ↦ ground (arith, sound.alone j k)
    ]
  ]

  settle-IsSound :
      (f : Fleet S R) (i : ℕ) (w : World S R)
      → IsSound f
      → Moves (world_of f i) w
      → IsSound (settle f i w)
  settle-IsSound f i w sound move = record {
    owned = settle-owned f i w sound move;
    alone = settle-alone f i w sound move;
  }

  Step-IsSound : {f g : Fleet S R} → Step h f g → IsSound f → IsSound g
  Step-IsSound {f} (look i e) sound =
      subst IsSound (sym e) (settle-IsSound f i _ sound (owning.looks (world_of f i)))
  Step-IsSound {f} (make i absent e) sound =
      subst IsSound (sym e) (settle-IsSound f i _ sound (owning.makes (world_of f i) absent))
  Step-IsSound {f} (change i stale e) sound =
      subst IsSound (sym e) (settle-IsSound f i _ sound (owning.changes (world_of f i) stale))

  Reach-IsSound : {f g : Fleet S R} → IsSound f → Reach h f g → IsSound g
  Reach-IsSound sound here = sound
  Reach-IsSound sound (next reach step) = Step-IsSound step (Reach-IsSound sound reach)

  -- From a fleet in which no object owns anything, no fleet is reached in which two objects own the
  -- same.
  pub owned_alone :
      {f g : Fleet S R} (i j : ℕ)
      → ((k : ℕ) → is_own (f.objects k) ≡ false)
      → Reach h f g
      → is_own (g.objects i) ≡ true
      → is_own (g.objects j) ≡ true
      → name (g.objects i) ≡ name (g.objects j)
      → i ≡ j
  owned_alone {f} i j free reach p q r =
      let start : IsSound f = record {
        owned = λ k e. absurd (ground (arith, free k));
        alone = λ k l e m d. absurd (ground (arith, free k));
      } in
      (Reach-IsSound start reach).alone i j p q r
