-- ===== src/Base/Lists.antt =====
-- Lists over the native numbers, Boolean quantifiers, and membership as a test.
use Prim.Native.Nat.{ℕ, suc}
use Prim.Native.String.{String}
use mathlib.Core.Path.{◌≡◌, refl}
use mathlib.Core.Bool.{Bool, true, false, not, ◌&&◌, ◌||◌}
use mathlib.Core.List.{List, [], ◌∷◌, ◌++◌}
use native.Mathlib.Omega.{arith}
use provider_minio.Base.Tests.{if◌then◌else◌, ◌==◌}

module _ {ℓ} {A : Type ℓ} where
  abbrev pub length : List A → ℕ
  length [] = 0
  length (x ∷ xs) = suc (length xs)

  abbrev pub all : (A → Bool) → List A → Bool
  all p [] = true
  all p (x ∷ xs) = p x && all p xs

  -- The elements that pass the test, in their order: `if p(x) { out = append(out, x) }`.
  abbrev pub keep : (A → Bool) → List A → List A
  keep p [] = []
  keep p (x ∷ xs) = let rest = keep p xs in if p x then x ∷ rest else rest

  abbrev pub is_nil : List A → Bool
  is_nil [] = true
  is_nil (_ ∷ _) = false

  pub all-append : (p : A → Bool) (xs ys : List A) → all p (xs ++ ys) ≡ (all p xs && all p ys)
  all-append p [] ys = refl
  all-append p (x ∷ xs) ys = ground (arith, all-append p xs ys)

  pub all-keep : (p q : A → Bool) (xs : List A) → all p xs ≡ true → all p (keep q xs) ≡ true
  all-keep p q [] h = refl
  all-keep p q (x ∷ xs) h = ground (arith, all-keep p q xs)

-- Is the text one of the list?
abbrev pub member : String → List String → Bool
member s [] = false
member s (t ∷ ts) = t == s || member s ts

-- No text is listed twice.
abbrev pub distinct : List String → Bool
distinct [] = true
distinct (t ∷ ts) = not (member t ts) && distinct ts
