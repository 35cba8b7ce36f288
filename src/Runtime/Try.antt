-- ===== src/Runtime/Try.antt =====
-- The chain of computations that only read: `x, err := f(); if err != nil { return err }`.
use provider_minio.Runtime.Exec.{Result, ok, err, panic, wrapping}
use provider_minio.Base.{◌≡◌, refl, String, arith}

infixl 5 ◌>>=◌
abbrev pub ◌>>=◌ : {A B : Type 0} → Result A → (A → Result B) → Result B
ok a >>= f = f a
err e >>= f = err e
panic >>= f = panic

-- A chain that succeeds did so in each of its two parts.
pub bind-ok :
    {A B : Type 0} (r : Result A) (f : A → Result B) {b : B}
    → (r >>= f) ≡ ok b
    → (a : A) × (r ≡ ok a) × (f a ≡ ok b)
bind-ok (ok a) f h = (a, refl, h)
bind-ok (err e) f h = absurd (ground arith)
bind-ok panic f h = absurd (ground arith)

pub wrapping-ok :
    {A : Type 0} (text : String) (r : Result A) {a : A} → wrapping text r ≡ ok a → r ≡ ok a
wrapping-ok text (ok b) h = h
wrapping-ok text (err e) h = absurd (ground arith)
wrapping-ok text panic h = absurd (ground arith)
