-- ===== src/Base/GoMap.antt =====
-- Go's `map[string]V` as an association list, a nil map or slice as `none`, and
-- `reflect.DeepEqual` on them.
use provider_minio.Base.Tests.{if◌then◌else◌, ◌==◌, is_some, nat_eq}
use provider_minio.Base.Lists.{length, is_nil}
use Prim.Native.String.{String}
use mathlib.Core.Path.{◌≡◌, refl}
use mathlib.Core.Bool.{Bool, true, false, ◌&&◌}
use mathlib.Core.Option.{Option, none, some}
use mathlib.Core.List.{List, [], ◌∷◌}
use mathlib.Core.Logic.{◌↔◌}
use native.Mathlib.Omega.{arith}
use text.Mathlib.TextEquality.{eq_iff}

abbrev pub GoMap {ℓ} : Type ℓ → Type ℓ
GoMap V = List (String × V)

module _ {ℓ} {V : Type ℓ} where
  -- `m[k]` with its second result.
  unfoldable pub lookup : String → GoMap V → Option V
  lookup k [] = none
  lookup k ((j, v) ∷ m) = if j == k then some v else lookup k m

  -- `_, ok := m[k]`.
  unfoldable pub has_key : String → GoMap V → Bool
  unfolding lookup
  has_key k m = is_some (lookup k m)

  -- `m[k] = v`
  unfoldable pub insert : String → V → GoMap V → GoMap V
  insert k v [] = (k, v) ∷ []
  insert k v ((j, w) ∷ m) = if j == k then (k, v) ∷ m else (j, w) ∷ insert k v m

  -- An entry is read back, and the other entries stay.
  pub lookup-insert :
      (key asked : String) (new : V) (entries : GoMap V)
      → lookup asked (insert key new entries)
        ≡ (if key == asked then some new else lookup asked entries)
  unfolding insert lookup
  lookup-insert key asked new [] = refl
  lookup-insert key asked new ((first, old) ∷ entries) = ground (
    lookup-insert key asked new entries,
    eq_iff first key,
    eq_iff first asked,
    eq_iff key asked,
    arith,
  )

  pub has_key-insert : (k : String) (v : V) (m : GoMap V) → has_key k (insert k v m) ≡ true
  unfolding has_key
  has_key-insert k v m = ground (arith, lookup-insert k k v m, eq_iff k k)

-- A nil map reads as the empty one.
unfoldable pub entries {ℓ} : {V : Type ℓ} → Option (GoMap V) → GoMap V
entries none = []
entries (some m) = m

-- Every entry of the first map is an entry of the second, with the same text.
unfoldable pub entries_agree : GoMap String → GoMap String → Bool
unfolding lookup
entries_agree [] b = true
entries_agree ((k, v) ∷ a) b = elim (lookup k b) [
  | none ↦ false
  | some w ↦ v == w && entries_agree a b
]

-- `reflect.DeepEqual` on two maps that are not nil: the same size, and equal entries.
unfoldable pub map_deep_equal : GoMap String → GoMap String → Bool
unfolding entries_agree
map_deep_equal a b = nat_eq (length a) (length b) && entries_agree a b

slice_equal : List String → List String → Bool
slice_equal [] [] = true
slice_equal (x ∷ xs) (y ∷ ys) = x == y && slice_equal xs ys
slice_equal _ _ = false

-- `reflect.DeepEqual` on two string slices, where `none` is the nil slice: a nil slice is deeply
-- equal to a nil slice alone, and not to an empty one.
unfoldable pub slice_deep_equal : Option (List String) → Option (List String) → Bool
unfolding slice_equal
slice_deep_equal none none = true
slice_deep_equal (some xs) (some ys) = slice_equal xs ys
slice_deep_equal _ _ = false

slice_equal_iff : (xs ys : List String) → (slice_equal xs ys ≡ true) ↔ (xs ≡ ys)
unfolding slice_equal
slice_equal_iff [] [] = (λ h. refl, λ h. refl)
slice_equal_iff (x ∷ xs) (y ∷ ys) = (
  λ h. ground (arith, eq_iff x y, slice_equal_iff xs ys),
  λ h. ground (arith, eq_iff x y, slice_equal_iff xs ys),
)
slice_equal_iff [] (y ∷ ys) = (λ h. cc, λ h. cc)
slice_equal_iff (x ∷ xs) [] = (λ h. cc, λ h. cc)

-- Deep equality of slices is equality, nil told apart from empty.
pub slice_deep_equal_iff : (a b : Option (List String)) → (slice_deep_equal a b ≡ true) ↔ (a ≡ b)
unfolding slice_deep_equal
slice_deep_equal_iff none none = (λ h. refl, λ h. refl)
slice_deep_equal_iff (some xs) (some ys) =
    (λ h. cc ((slice_equal_iff xs ys).0 h), λ h. (slice_equal_iff xs ys).1 (cc))
slice_deep_equal_iff none (some ys) = (λ h. cc, λ h. cc)
slice_deep_equal_iff (some xs) none = (λ h. cc, λ h. cc)

-- A map that is deeply equal to the empty one is empty.
pub is_nil-same :
    (a b : GoMap String) → is_nil a ≡ true → map_deep_equal a b ≡ true → is_nil b ≡ true
unfolding map_deep_equal
is_nil-same [] [] n h = refl
is_nil-same [] (x ∷ b) n h = ground arith
is_nil-same (x ∷ a) b n h = cc
