-- ===== src/User/Listing.antt =====
-- The text in which MinIO lists the policies of a user, and the list that the program reads in it.
use provider_minio.Base.GoMap.{slice_deep_equal}
use provider_minio.Base.{
  split-join, split, join, lacks, is_empty, all, split, String, ◌≡◌, refl, ap, Bool, true, not,
  ◌&&◌, Option, none, some, List, [], ◌∷◌, arith, eq_iff,
}
use Prim.Native.Char.{code}
use provider_minio.Apis.User.{User}
use provider_minio.Client.Admin.{UserInfo}
use provider_minio.User.Policies.{comma, split_policies, equal_policies}

-- The names with commas between them.
abbrev pub joined : List String → String
joined [] = ""
joined (name ∷ names) = join comma name names

-- No name is empty or has a comma in it.
abbrev pub fit_names : List String → Bool
fit_names = all (λ name. lacks (code comma) name && not (is_empty name))

-- Go's slice for a list of names: nil where it is empty.
abbrev pub as_slice : List String → Option (List String)
as_slice [] = none
as_slice (name ∷ names) = some (name ∷ names)

fit-lacks : (names : List String) → fit_names names ≡ true → all (lacks (code comma)) names ≡ true
fit-lacks [] h = refl
fit-lacks (name ∷ names) h = ground (arith, fit-lacks names)

split-nil : split (code comma) "" ≡ ("", [])
unfolding split
split-nil = refl

-- Update reads the names of a list of policies back from the text in which MinIO lists them, where
-- no name is empty or has a comma in it.
pub split_policies-joined :
    (names : List String) → fit_names names ≡ true → split_policies (joined names) ≡ names
unfolding split_policies
split_policies-joined [] h = unfold split in refl
split_policies-joined (name ∷ names) h =
    ground (arith, split-join comma name names, fit-lacks names)

-- So does the comparison in Observe, where the empty list stands for the nil slice.
pub equal_policies-joined :
    (names : List String) (info : UserInfo) (user : User)
    → fit_names names ≡ true
    → info.policy_name ≡ joined names
    → equal_policies info user ≡ slice_deep_equal (as_slice names) user.spec.for_provider.policies
unfolding equal_policies
equal_policies-joined [] info user h e =
    ground (
      arith,
      ap (split (code comma)) e,
      split-nil,
      eq_iff (split (code comma) info.policy_name).0 "",
    )
equal_policies-joined (name ∷ names) info user h e =
    ground (arith, split-join comma name names, fit-lacks names)
