-- ===== src/Base/Text.antt =====
-- The functions of Go's package `strings` that the program calls, over native texts.
use Prim.Native.Nat.{ℕ, ◌+◌, ◌-◌}
use Prim.Native.Char.{Char, code}
use Prim.Native.String.{String, ◌++◌, char_at}
use mathlib.Core.List.{List, [], ◌∷◌}
use mathlib.Core.Path.{◌≡◌, refl}
use native.Mathlib.Omega.{arith}
use text.Mathlib.TextLemmas.{nil-append, cons-append}
use mathlib.Core.Bool.{Bool, true, false, not, ◌&&◌, ◌||◌}
use text.Mathlib.Text.{find?}
use provider_minio.Base.Lists.{all}
use provider_minio.Base.Tests.{if◌then◌else◌, is_some, nat_eq, ltb}

-- `strings.Contains(s, sub)`.
abbrev pub contains : String → String → Bool
contains s sub = is_some (find? s sub)

-- `strings.Split(s, sep)` at a separator of one character, given by its code: the first part and the
-- parts after it.
unfoldable pub split : ℕ → String → String × List String
split sep String.[] = (String.[], [])
split sep (String.◌∷◌ c s) =
    let (here, later) = split sep s in
    if nat_eq sep (code c) then (String.[], here ∷ later) else (String.◌∷◌ c here, later)

-- The parts with the separator between them.
unfoldable pub join : Char → String → List String → String
join sep here [] = here
join sep here (next ∷ later) = here ++ String.◌∷◌ sep (join sep next later)

-- The character of the code does not occur.
unfoldable pub lacks : ℕ → String → Bool
lacks sep String.[] = true
lacks sep (String.◌∷◌ c s) = not (nat_eq sep (code c)) && lacks sep s

split-join_cons :
    (sep : Char) (here rest : String)
    → lacks (code sep) here ≡ true
    → split (code sep) (here ++ String.◌∷◌ sep rest)
      ≡ (here, (split (code sep) rest).0 ∷ (split (code sep) rest).1)
unfolding split lacks
split-join_cons sep String.[] rest h = ground (arith, nil-append (String.◌∷◌ sep rest))
split-join_cons sep (String.◌∷◌ c here) rest h =
    ground (arith, cons-append c here (String.◌∷◌ sep rest), split-join_cons sep here rest)

split-lacks : (sep : Char) (s : String) → lacks (code sep) s ≡ true → split (code sep) s ≡ (s, [])
unfolding split lacks
split-lacks sep String.[] h = refl
split-lacks sep (String.◌∷◌ c s) h = ground (arith, split-lacks sep s)

-- Parts without the separator are found again.
pub split-join :
    (sep : Char) (here : String) (later : List String)
    → lacks (code sep) here ≡ true
    → all (lacks (code sep)) later ≡ true
    → split (code sep) (join sep here later) ≡ (here, later)
unfolding join
split-join sep here [] h a = split-lacks sep here h
split-join sep here (next ∷ later) h a =
    ground (arith, split-join_cons sep here (join sep next later) h, split-join sep next later)

one_of : List ℕ → ℕ → Bool
one_of [] c = false
one_of (k ∷ ks) c = nat_eq k c || one_of ks c

-- `unicode.IsSpace` on a code point. The range is that of the spaces of typography.
is_space : ℕ → Bool
unfolding one_of
is_space c =
    one_of (9 ∷ 10 ∷ 11 ∷ 12 ∷ 13 ∷ 32 ∷ 133 ∷ 160 ∷ 5760 ∷ 8232 ∷ 8233 ∷ 8239 ∷ 8287 ∷ 12288 ∷ [])
      c
    || ltb 8191 c && ltb c 8203

-- An ASCII letter in lower case.
lower : ℕ → ℕ
lower c = if ltb 64 c && ltb c 91 then c + 32 else c

-- `strings.EqualFold(s, t)`, where no letter of `t` has a form outside of ASCII.
unfoldable pub equal_fold : String → String → Bool
unfolding lower
equal_fold String.[] String.[] = true
equal_fold (String.◌∷◌ c s) (String.◌∷◌ d t) =
    nat_eq (lower (code c)) (lower (code d)) && equal_fold s t
equal_fold _ _ = false

-- Nothing but white space?
blank : String → Bool
unfolding is_space
blank String.[] = true
blank (String.◌∷◌ c s) = is_space (code c) && blank s

-- From the first character that is no white space on.
unindented : String → String
unfolding is_space
unindented String.[] = String.[]
unindented (String.◌∷◌ c s) =
    let later = unindented s in if is_space (code c) then later else String.◌∷◌ c s

-- Up to the last character that is no white space.
until_blank : String → String
unfolding blank is_space
until_blank String.[] = String.[]
until_blank (String.◌∷◌ c s) =
    let front = until_blank s in
    if is_space (code c) && blank s then String.[] else String.◌∷◌ c front

-- `strings.TrimSpace`
unfoldable pub trim_space : String → String
unfolding unindented until_blank
trim_space s = until_blank (unindented s)

-- An ASCII letter in lower case, as a character.
lower_char : Char → Char
lower_char c =
    if ltb 64 (code c) && ltb (code c) 91
    then char_at "abcdefghijklmnopqrstuvwxyz" (code c - 65)
    else c

-- `strings.ToLower`, on a text of ASCII.
unfoldable pub to_lower : String → String
unfolding lower_char
to_lower String.[] = String.[]
to_lower (String.◌∷◌ c s) = String.◌∷◌ (lower_char c) (to_lower s)
