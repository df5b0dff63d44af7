-- ===== src/Locks.antt =====
-- lock_manager.go: strict two-phase locking. `Acquire` is cut at the channel receive on which it
-- blocks: `acquire` is the part before it and `resume` the part after it. A waiter stands for the
-- channel of a blocked call; `woken` holds those that have been sent a value.
pub mod Invariant
pub mod Release
pub mod Waking
pub mod Safety
use ultimate_db.Prelude.{
  ℕ, Bool, true, false, ◌&&◌, ◌||◌, Option, none, some, List, [], ◌∷◌, ◌++◌, length, nat_eq,
  if◌then◌else◌, Map, lookup, insert, delete, nat_key, bytes_key,
}

pub data LockMode : Type 0 where
  shared exclusive : LockMode

abbrev pub is_exclusive : LockMode → Bool
is_exclusive shared = false
is_exclusive exclusive = true

abbrev pub is_shared : LockMode → Bool
is_shared shared = true
is_shared exclusive = false

abbrev pub Key : Type 0
Key = List ℕ

pub record Waiter : Type 0 where
  pub txn : ℕ
  pub key : Key
  pub mode : LockMode

pub record LockKey : Type 0 where
  pub mode : LockMode
  pub holders : Map ℕ Bool
  pub waiters : List Waiter

pub record LockManager : Type 0 where
  pub locks : Map Key LockKey
  pub txns : Map ℕ (Map Key Bool)
  pub woken : List Waiter

pub data Outcome : Type 0 where
  granted blocked : Outcome

abbrev pub new_lock_manager : LockManager
new_lock_manager = record { locks = []; txns = []; woken = [] }

abbrev pub is_member {ℓ} : {A : Type ℓ} → Option A → Bool
is_member none = false
is_member (some a) = true

abbrev pub keys_of : Option (Map Key Bool) → Map Key Bool
keys_of none = []
keys_of (some m) = m

unfoldable pub add_txn_lock : LockManager → ℕ → Key → LockManager
add_txn_lock s txn key = record s {
  txns = insert txn (insert key true (keys_of (lookup txn s.txns))) s.txns;
}

-- The lock is free: it is created with one holder.
unfoldable pub grant_new : LockManager → Waiter → LockManager
unfolding add_txn_lock
grant_new s w =
    add_txn_lock
      (record s {
        locks =
            insert w.key (record { mode = w.mode; holders = (w.txn, true) ∷ []; waiters = [] })
              s.locks;
      })
      w.txn w.key

-- One round of the loop: the lock is joined, or the call is queued on it.
unfoldable pub contend : LockManager → LockKey → Waiter → LockManager × Outcome
unfolding add_txn_lock
contend s lk w =
    if is_exclusive lk.mode || is_exclusive w.mode
    then (
      record s { locks = insert w.key (record lk { waiters = lk.waiters ++ w ∷ [] }) s.locks },
      blocked,
    )
    else (
      add_txn_lock
          (record s {
            locks = insert w.key (record lk { holders = insert w.txn true lk.holders }) s.locks;
          })
          w.txn w.key,
      granted,
    )

unfoldable pub acquire : LockManager → Waiter → LockManager × Outcome
unfolding grant_new contend
acquire s w = elim (lookup w.key s.locks) [
  | none ↦ (grant_new s w, granted)
  | some lk ↦
      if is_member (lookup w.txn lk.holders) && (is_exclusive lk.mode || is_shared w.mode)
      then (s, granted)
      else if is_member (lookup w.txn lk.holders) && nat_eq (length lk.holders) 1
      then (record s { locks = insert w.key (record lk { mode = exclusive }) s.locks }, granted)
      else contend s lk w
]

-- After the receive: the call takes the lock if it is gone, and else goes round the loop.
unfoldable pub resume : LockManager → Waiter → LockManager × Outcome
unfolding grant_new contend
resume s w = elim (lookup w.key s.locks) [
  | none ↦ (grant_new s w, granted)
  | some lk ↦ contend s lk w
]

-- The holder leaves; with the last one the lock goes, and every waiter is sent a value.
unfoldable pub drop_holder : LockManager → ℕ → Key → LockKey → LockManager
drop_holder s txn key lk =
    let left = delete txn lk.holders in
    if nat_eq (length left) 0
    then record s { locks = delete key s.locks; woken = s.woken ++ lk.waiters }
    else record s { locks = insert key (record lk { holders = left }) s.locks }

unfoldable pub drop_txn_lock : ℕ → Key → Map ℕ (Map Key Bool) → Map ℕ (Map Key Bool)
drop_txn_lock txn key txns = elim (lookup txn txns) [
  | none ↦ txns
  | some keys ↦ insert txn (delete key keys) txns
]

unfoldable pub release : LockManager → ℕ → Key → LockManager
unfolding drop_holder drop_txn_lock
release s txn key = elim (lookup key s.locks) [
  | none ↦ s
  | some lk ↦ drop_holder (record s { txns = drop_txn_lock txn key s.txns }) txn key lk
]

-- lk := m.locks[key]; if lk != nil { ... }
unfoldable pub release_one : LockManager → ℕ → Key → LockManager
unfolding drop_holder
release_one s txn key = elim (lookup key s.locks) [ none ↦ s | some lk ↦ drop_holder s txn key lk ]

-- for key := range keys { ... }
unfoldable pub release_keys : LockManager → ℕ → Map Key Bool → LockManager
unfolding release_one
release_keys s txn [] = s
release_keys s txn ((key, b) ∷ rest) = release_keys (release_one s txn key) txn rest

unfoldable pub release_all : LockManager → ℕ → LockManager
unfolding release_keys
release_all s txn = elim (lookup txn s.txns) [
  | none ↦ s
  | some keys ↦ (let s' = release_keys s txn keys in record s' { txns = delete txn s'.txns })
]
