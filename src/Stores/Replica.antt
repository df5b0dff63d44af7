-- ===== src/Stores/Replica.antt =====
-- kv_replica.go: durable identity keys are written to a second store and to a mirror, and read back
-- from there when the primary has lost them. The mirror is the map that its JSON file holds;
-- `none` is a file that is not there or cannot be read, and writing the file succeeds.
use ultimate_db.Prelude.{
  ℕ, Bool, true, false, ◌||◌, not, Option, none, some, List, [], ◌∷◌, if◌then◌else◌, bytes_key,
  bytes_eq, ℤ, pos, Map, lookup, insert, delete,
}
use ultimate_db.Bytes.{has_prefix}
use ultimate_db.Stores.{KvStore, GetReply, found, nothing, missing, is_nonempty}

abbrev data_user : List ℕ
data_user = b'd' ∷ b'a' ∷ b't' ∷ b'a' ∷ b':' ∷ b'u' ∷ b's' ∷ b'e' ∷ b'r' ∷ b':' ∷ []

abbrev data_oidc : List ℕ
data_oidc = b'd' ∷ b'a' ∷ b't' ∷ b'a' ∷ b':' ∷ b'o' ∷ b'i' ∷ b'd' ∷ b'c' ∷ b'_' ∷ []

abbrev data_client : List ℕ
data_client = b'd' ∷ b'a' ∷ b't' ∷ b'a' ∷ b':' ∷ b'c' ∷ b'l' ∷ b'i' ∷ b'e' ∷ b'n' ∷ b't' ∷ b':' ∷ []

-- "data:oidc_master_key"
abbrev data_oidc_master_key : List ℕ
data_oidc_master_key =
    b'd' ∷ b'a' ∷ b't' ∷ b'a' ∷ b':' ∷ b'o' ∷ b'i' ∷ b'd' ∷ b'c' ∷ b'_' ∷ b'm' ∷ b'a' ∷ b's' ∷ b't'
    ∷ b'e' ∷ b'r' ∷ b'_' ∷ b'k' ∷ b'e' ∷ b'y' ∷ []

unfoldable pub is_durable_identity_key : List ℕ → Bool
unfolding has_prefix bytes_eq
is_durable_identity_key key =
    has_prefix key data_user
    || has_prefix key data_oidc
    || has_prefix key data_client
    || bytes_eq key data_oidc_master_key

pub record ReplicatingKvStore (P R : Type 0) : Type 0 where
  pub primary : P
  pub replica : R
  pub has_mirror : Bool
  pub mirror : Option (Map (List ℕ) (List ℕ))

module _ {P R : Type 0} where
  unfoldable pub mirror_load : ReplicatingKvStore P R → Option (Map (List ℕ) (List ℕ))
  mirror_load s = if s.has_mirror then s.mirror else none

  -- A value of length 0 is not there.
  unfoldable pub mirror_get : ReplicatingKvStore P R → List ℕ → Option (List ℕ)
  unfolding mirror_load
  mirror_get s key = elim (mirror_load s) [
    | none ↦ none
    | some m ↦ if is_nonempty (lookup key m) then lookup key m else none
  ]

  unfoldable pub mirror_put : ReplicatingKvStore P R → List ℕ → List ℕ → ReplicatingKvStore P R
  unfolding mirror_load
  mirror_put s key val =
      if not s.has_mirror || not (is_nonempty (some val)) then s else elim (mirror_load s) [
        | none ↦ record s { mirror = some (insert key val []) }
        | some m ↦ record s { mirror = some (insert key val m) }
      ]

  unfoldable pub mirror_delete : ReplicatingKvStore P R → List ℕ → ReplicatingKvStore P R
  unfolding mirror_load
  mirror_delete s key = elim (mirror_load s) [
    | none ↦ s
    | some m ↦ record s { mirror = some (delete key m) }
  ]

-- `p` and `r` are the operations of the two stores.
module _ {P R : Type 0} (p : KvStore P) (r : KvStore R) where
  -- The value that the primary does not have: from the replica, else from the mirror, and back into
  -- the stores that missed it.
  unfoldable pub fall_back : ReplicatingKvStore P R → List ℕ → ReplicatingKvStore P R × GetReply
  unfolding mirror_get
  fall_back s key = elim (r.get s.replica key) [
    | some (b ∷ bs) ↦
        (record s { primary = (p.put s.primary key (b ∷ bs) (pos 0)).0 }, found (b ∷ bs))
    | _ ↦ elim (mirror_get s key) [
      | none ↦ (s, missing)
      | some val ↦ (
        record s {
          primary = (p.put s.primary key val (pos 0)).0;
          replica = (r.put s.replica key val (pos 0)).0;
        },
        found val,
      )
    ]
  ]

  unfoldable pub replica_get : ReplicatingKvStore P R → List ℕ → ReplicatingKvStore P R × GetReply
  unfolding fall_back is_durable_identity_key
  replica_get s key = elim (p.get s.primary key) [
    | some (b ∷ bs) ↦ (s, found (b ∷ bs))
    | some [] ↦ if is_durable_identity_key key then fall_back s key else (s, nothing)
    | none ↦ if is_durable_identity_key key then fall_back s key else (s, missing)
  ]

  -- The replica's copy has no time to live.
  unfoldable pub replica_put :
      ReplicatingKvStore P R → List ℕ → List ℕ → ℤ → ReplicatingKvStore P R × Bool
  unfolding mirror_put is_durable_identity_key
  replica_put s key val ttl =
      let (primary, ok) = p.put s.primary key val ttl in
      let s = record s { primary = primary } in
      if not ok
      then (s, false)
      else if not (is_durable_identity_key key) || not (is_nonempty (some val))
      then (s, true)
      else (let (replica, ok') = r.put s.replica key val (pos 0) in
          let s = record s { replica = replica } in
          if not ok' then (s, false) else (mirror_put s key val, true))

  -- The primary's error is returned after the copies are gone; theirs are dropped.
  unfoldable pub replica_delete : ReplicatingKvStore P R → List ℕ → ReplicatingKvStore P R × Bool
  unfolding mirror_delete is_durable_identity_key
  replica_delete s key =
      let (primary, ok) = p.remove s.primary key in
      let s = record s { primary = primary } in
      if is_durable_identity_key key
      then (mirror_delete (record s { replica = (r.remove s.replica key).0 }) key, ok)
      else (s, ok)
