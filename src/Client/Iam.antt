-- ===== src/Client/Iam.antt =====
-- The package `iam/policy` of minio/pkg, over its type `P` of policies.
use provider_minio.Base.{String, Bool, List}
use provider_minio.Runtime.{Result}

-- A statement as the program writes it: the identifier, the effect, the actions and the resources,
-- each a bucket and a key pattern.
pub record Statement : Type 0 where
  pub sid : String
  pub effect : String
  pub actions : List String
  pub resources : List (String × String)

-- `allow` and `all_actions` are the constants `Allow` and `AllActions`.
pub record Iam (P : Type 0) : Type 0 where
  pub allow : String
  pub all_actions : String
  pub new_policy : String → List Statement → P
  pub validate : P → Result (Unit {0})
  pub marshal : P → Result String
  pub unmarshal : String → Result P
  pub equals : P → P → Bool
