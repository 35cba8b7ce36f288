-- ===== src/Base/Tests.antt =====
-- Boolean tests, on native numbers and on texts, and the case splits that keep their equations.
use Prim.Native.Nat.{ℕ, compare, Ordering}
use Prim.Native.String.{String}
use mathlib.Core.Path.{◌≡◌, refl}
use mathlib.Core.Logic.{◌⊎◌, inl, inr, ◌↔◌}
use mathlib.Core.Bool.{Bool, true, false, not, ◌&&◌}
use mathlib.Core.Option.{Option, none, some}
use native.Mathlib.Omega.{arith}
use text.Mathlib.Text

infix 1 if◌then◌else◌
abbrev pub if◌then◌else◌ {ℓ} : {A : Type ℓ} → Bool → A → A → A
if true then x else _ = x
if false then _ else y = y

abbrev pub ltb : ℕ → ℕ → Bool
ltb a b = elim (compare a b) [ Ordering.lt ↦ true | _ ↦ false ]

abbrev pub nat_eq : ℕ → ℕ → Bool
nat_eq a b = elim (compare a b) [ Ordering.eq ↦ true | _ ↦ false ]

-- Go's `==` and `!=` on strings.
infix 50 ◌==◌ ◌!=◌
abbrev pub ◌==◌ : String → String → Bool
s == t = Text.◌==◌ s t

abbrev pub ◌!=◌ : String → String → Bool
s != t = not (s == t)

abbrev pub is_empty : String → Bool
is_empty s = s == ""

pub Bool-cases : (b : Bool) → (b ≡ true) ⊎ (b ≡ false)
Bool-cases true = inl refl
Bool-cases false = inr refl

pub Option-cases {ℓ} : {A : Type ℓ} (o : Option A) → (o ≡ none) ⊎ ((a : A) × (o ≡ some a))
Option-cases none = inl refl
Option-cases (some a) = inr (a, refl)

abbrev pub is_some {ℓ} : {A : Type ℓ} → Option A → Bool
is_some none = false
is_some (some _) = true

pub &&-eq-true : (a b : Bool) → (a && b ≡ true) ↔ ((a ≡ true) × (b ≡ true))
&&-eq-true a b = (λ h. ground arith, λ h. ground arith)
