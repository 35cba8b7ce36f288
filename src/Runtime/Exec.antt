-- ===== src/Runtime/Exec.antt =====
-- A handler: it runs on the outside world, the events emitted so far and the managed resource
-- that its pointer argument names, and returns a result, an error, or panics. What it has changed
-- before an error stays changed.
use provider_minio.Base.{◌≡◌, refl, ◌⊎◌, inl, inr, Bool, true, false, List, ◌∷◌, String}
use provider_minio.Runtime.Values.{Error, wrap, Event}

pub data Result (A : Type 0) : Type 0 where
  ok : A → Result A
  err : Error → Result A
  panic : Result A

abbrev pub is_ok : {A : Type 0} → Result A → Bool
is_ok (ok _) = true
is_ok (err _) = false
is_ok panic = false

-- An error is wrapped: `fmt.Errorf("text: %w", err)`, `errors.Wrap(err, "text")`.
abbrev pub wrapping : {A : Type 0} → String → Result A → Result A
wrapping text (ok a) = ok a
wrapping text (err e) = err (wrap text e)
wrapping text panic = panic

-- To split on a result and keep the equation.
pub Result-cases :
    {A : Type 0} (given : Result A)
    → ((value : A) × (given ≡ ok value)) ⊎ ((error : Error) × (given ≡ err error)) ⊎ (given ≡ panic)
Result-cases (ok a) = inl (a, refl)
Result-cases (err e) = inr (inl (e, refl))
Result-cases panic = inr (inr refl)

-- `outside` is the state of all that the process talks to: MinIO and the Kubernetes API.
pub record World (S R : Type 0) : Type 0 where
  pub outside : S
  pub events : List Event
  pub resource : R

abbrev pub M : Type 0 → Type 0 → Type 0 → Type 0
M S R A = World S R → Result A × World S R

module _ {S R : Type 0} where
  abbrev pub pure : {A : Type 0} → A → M S R A
  pure a w = (ok a, w)

  abbrev pub fail : {A : Type 0} → Error → M S R A
  fail e w = (err e, w)

  -- A nil pointer is dereferenced, or a nil map is written.
  abbrev pub crash : {A : Type 0} → M S R A
  crash w = (panic, w)

  infixl 5 ◌>>=◌ ◌>>◌
  abbrev pub ◌>>=◌ : {A B : Type 0} → M S R A → (A → M S R B) → M S R B
  ◌>>=◌ m f w =
      let (r, w') = m w in elim r [ ok a ↦ f a w' | err e ↦ (err e, w') | panic ↦ (panic, w') ]

  abbrev pub ◌>>◌ : {B : Type 0} → M S R (Unit {0}) → M S R B → M S R B
  m >> k = m >>= λ _. k

  -- `if test { return e }`
  abbrev pub fail_if : Bool → Error → M S R (Unit {0})
  fail_if true e w = (err e, w)
  fail_if false e w = (ok tt, w)

  -- `if test { m }`
  abbrev pub when : Bool → M S R (Unit {0}) → M S R (Unit {0})
  when true m w = m w
  when false m w = (ok tt, w)

  -- A call that only reads the outside world.
  abbrev pub query : {A : Type 0} → (S → Result A) → M S R A
  query f w = (f w.outside, w)

  -- The same where the caller goes on after an error: `x, err := f()` with a branch on `err`.
  abbrev pub attempt : {A : Type 0} → (S → Result A) → M S R (Result A)
  attempt f w = (ok (f w.outside), w)

  -- A call that may change the outside world, also where it fails.
  abbrev pub call : {A : Type 0} → (S → Result A × S) → M S R A
  call f w = let (r, s) = f w.outside in (r, record w { outside = s })

  -- The same for such a call whose error the caller looks at.
  abbrev pub attempt_call : {A : Type 0} → (S → Result A × S) → M S R (Result A)
  attempt_call f w = let (r, s) = f w.outside in (ok r, record w { outside = s })

  abbrev pub get : M S R R
  get w = (ok w.resource, w)

  abbrev pub put : R → M S R (Unit {0})
  put r w = (ok tt, record w { resource = r })

  abbrev pub modify : (R → R) → M S R (Unit {0})
  modify f w = (ok tt, record w { resource = f w.resource })

  -- `recorder.Event`; the last event stands first.
  abbrev pub emit : String → String → M S R (Unit {0})
  emit reason message w =
      (ok tt, record w { events = record { reason = reason; message = message } ∷ w.events })
