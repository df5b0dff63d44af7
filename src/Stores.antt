-- ===== src/Stores.antt =====
-- The stores that are built on a key-value store (the KVStore interface of interfaces.go, which
-- kv_store.go implements on a B-tree): kv_replica.go and hotswap_store.go. A store is an interface
-- of operations and laws; an operation in a transaction of its own is one operation.
pub mod Replica
pub mod Copying
pub mod Migration
pub mod HotSwap
pub mod Durability
pub mod OnBTree
use ultimate_db.Prelude.{
  ℕ, ◌≡◌, refl, Bool, true, false, Option, none, some, List, [], ◌∷◌, if◌then◌else◌, ◌==◌,
  bytes_key, ℤ, pos, Map, lookup, insert, delete, lookup-insert, lookup-delete, ◌&&◌, arith,
}

-- `put` and `remove` return the store and whether they succeeded; a time to live of 0 is none. A
-- store keeps the laws for the operations that it has room for: a `Put` of the B-tree that splits a
-- leaf reports success and loses the value (Kv.Lost).
pub record KvStore (S : Type 0) : Type 1 where
  pub get : S → List ℕ → Option (List ℕ)
  pub put : S → List ℕ → List ℕ → ℤ → S × Bool
  pub remove : S → List ℕ → S × Bool
  pub put_fits : S → List ℕ → List ℕ → Type 0
  pub remove_fits : S → List ℕ → Type 0
  pub get_put :
      (s : S) (key val j : List ℕ)
      → put_fits s key val
      → (put s key val (pos 0)).1 ≡ true
      → get (put s key val (pos 0)).0 j ≡ (if key == j then some val else get s j)
  pub get_remove :
      (s : S) (key j : List ℕ)
      → remove_fits s key
      → (remove s key).1 ≡ true
      → get (remove s key).0 j ≡ (if key == j then none else get s j)

-- The reply of `Get`: `nothing` is a nil value without an error.
pub data GetReply : Type 0 where
  found : List ℕ → GetReply
  nothing missing : GetReply

abbrev pub is_nonempty : Option (List ℕ) → Bool
is_nonempty none = false
is_nonempty (some []) = false
is_nonempty (some (b ∷ bs)) = true
