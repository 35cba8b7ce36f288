-- ===== src/Bucket/Feed.antt =====
-- The goroutine of `deleteAllObjects` (operator/bucket/delete.go), which sends the objects of the
-- bucket over a channel without a buffer, and its receiver, which is RemoveObjects of minio-go. The
-- receiver may stop reading at any time: the method returns at the first object that is not removed.
use provider_minio.Base.{
  if◌then◌else◌, Bool-cases, is_some, length, keep, ℕ, zero, suc, ◌+◌, ◌≤◌, String, ◌≡◌, refl, sym,
  ap, ◌∙◌, ◌⊎◌, inl, inr, Bool, true, false, not, List, [], ◌∷◌, ◌++◌, arith,
}
use mathlib.Core.List.{append_assoc, append-nil}
use provider_minio.Client.S3.{S3, ObjectInfo}
use provider_minio.Bucket.Delete.{listed_objects}

-- What is left of the listing, whether the channel is closed and read, and what has come through it.
pub record Feed : Type 0 where
  pub rest : List ObjectInfo
  pub closed : Bool
  pub listening : Bool
  pub received : List ObjectInfo

-- An entry of the listing that is sent.
abbrev pub is_sent : ObjectInfo → Bool
is_sent o = not (is_some o.err)

-- One move: `continue` at an entry with an error, the rendezvous of sender and receiver, the deferred
-- `close`, and the receiver's leaving.
pub data Step (f g : Feed) : Type 0 where
  skip :
      (o : ObjectInfo) (os : List ObjectInfo)
      → f.rest ≡ o ∷ os
      → is_sent o ≡ false
      → f.closed ≡ false
      → g ≡ record f { rest = os }
      → Step f g
  send :
      (o : ObjectInfo) (os : List ObjectInfo)
      → f.rest ≡ o ∷ os
      → is_sent o ≡ true
      → f.closed ≡ false
      → f.listening ≡ true
      → g ≡ record f { rest = os; received = f.received ++ (o ∷ []) }
      → Step f g
  close : f.rest ≡ [] → f.closed ≡ false → g ≡ record f { closed = true } → Step f g
  leave : f.listening ≡ true → g ≡ record f { listening = false } → Step f g

-- A run of so many moves.
pub data Run (f : Feed) : ℕ → Feed → Type 0 where
  stay : Run f zero f
  more : {n : ℕ} {g h : Feed} → Run f n g → Step g h → Run f (suc n) h

abbrev pub opened : List ObjectInfo → Feed
opened listing = record { rest = listing; closed = false; listening = true; received = [] }

-- The moves that are left at most.
abbrev moves_left : Feed → ℕ
moves_left f = length f.rest + (if f.closed then 0 else 1) + (if f.listening then 1 else 0)

Step-moves_left : {f g : Feed} → Step f g → moves_left g + 1 ≡ moves_left f
Step-moves_left (skip o os r s c e) = ground arith
Step-moves_left (send o os r s c l e) = ground arith
Step-moves_left (close r c e) = ground arith
Step-moves_left (leave l e) = ground arith

Run-moves_left : {f g : Feed} {n : ℕ} → Run f n g → moves_left g + n ≡ moves_left f
Run-moves_left stay = omega arith
Run-moves_left (more run step) = omega (arith, Run-moves_left run, Step-moves_left step)

-- What has come through and what is still to be sent, in their order.
abbrev in_flight : Feed → List ObjectInfo
in_flight f = f.received ++ keep is_sent f.rest

Step-in_flight : {f g : Feed} → Step f g → in_flight g ≡ in_flight f
Step-in_flight (skip o os r s c e) = ground arith
Step-in_flight {f} (send o os r s c l e) =
    ground (arith, append_assoc f.received (o ∷ []) (keep is_sent os))
Step-in_flight (close r c e) = ground arith
Step-in_flight (leave l e) = ground arith

Run-in_flight : {f g : Feed} {n : ℕ} → Run f n g → in_flight g ≡ in_flight f
Run-in_flight stay = refl
Run-in_flight (more run step) = Step-in_flight step ∙ Run-in_flight run

Step-closed :
    {f g : Feed} → Step f g → (f.closed ≡ true → f.rest ≡ []) → g.closed ≡ true → g.rest ≡ []
Step-closed (skip o os r s c e) h k = ground arith
Step-closed (send o os r s c l e) h k = ground arith
Step-closed (close r c e) h k = ground arith
Step-closed (leave l e) h k = ground (arith, h)

Run-closed :
    {listing : List ObjectInfo} {g : Feed} {n : ℕ}
    → Run (opened listing) n g
    → g.closed ≡ true
    → g.rest ≡ []
Run-closed stay k = absurd (ground arith)
Run-closed (more run step) k = Step-closed step (Run-closed run) k

list-cases :
    (l : List ObjectInfo) → (l ≡ []) ⊎ ((o : ObjectInfo) × (os : List ObjectInfo) × (l ≡ o ∷ os))
list-cases [] = inl refl
list-cases (o ∷ os) = inr (o, os, refl)

-- The sender holds an object, and nobody reads the channel.
abbrev pub IsBlocked : Feed → Type 0
IsBlocked f =
    (o : ObjectInfo) × (os : List ObjectInfo) × (f.rest ≡ o ∷ os)
    × (is_sent o ≡ true)
    × (f.listening ≡ false)

-- A move is left, or the channel is closed, or the sender is blocked.
move_left : (f : Feed) → ((g : Feed) × Step f g) ⊎ ((f.closed ≡ true) ⊎ IsBlocked f)
move_left f = elim (Bool-cases f.closed) [
  | inl c ↦ inr (inl c)
  | inr c ↦ elim (Bool-cases f.listening) [
    | inl l ↦ inl (_, leave l refl)
    | inr l ↦ elim (list-cases f.rest) [
      | inl r ↦ inl (_, close r c refl)
      | inr (o, os, r) ↦ elim (Bool-cases (is_sent o)) [
        | inl s ↦ inr (inr (o, os, r, s, l))
        | inr s ↦ inl (_, skip o os r s c refl)
      ]
    ]
  ]
]

module _ {S : Type 0} (s3 : S3 S) where
  -- However sender and receiver take their turns, and wherever the receiver stops: the exchange ends
  -- after at most two moves more than the listing has entries; what has been received, followed by
  -- what is still to be sent, is the listing without the entries that carry an error, in its order;
  -- and where no move is left, either the channel is closed and all of it has been received, or the
  -- goroutine holds an object that nobody reads any more and stays for ever.
  pub feed_ends :
      (name : String) (s : S) {n : ℕ} {g : Feed}
      → Run (opened (s3.list_objects s name)) n g
      → (n ≤ length (s3.list_objects s name) + 2)
        × (g.received ++ keep is_sent g.rest ≡ listed_objects s3 name s)
        × (((h : Feed) × Step g h)
            ⊎ (((g.closed ≡ true) × (g.received ≡ listed_objects s3 name s)) ⊎ IsBlocked g))
  unfolding listed_objects
  feed_ends name s {g} run = (
    omega (arith, Run-moves_left run),
    Run-in_flight run,
    elim (move_left g) [
      | inl move ↦ inl move
      | inr (inl closed) ↦ inr (
          inl (
            closed,
            sym (append-nil g.received)
                ∙ (ap (λ r. g.received ++ keep is_sent r) (sym (Run-closed run closed))
                    ∙ Run-in_flight run),
          ))
      | inr (inr blocked) ↦ inr (inr blocked)
    ],
  )
