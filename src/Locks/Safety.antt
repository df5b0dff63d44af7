-- ===== src/Locks/Safety.antt =====
-- The lock manager as a transition system: calls of any transactions in any order.
use ultimate_db.Prelude.{
  ℕ, ◌≡◌, Bool, true, some, List, [], ◌∷◌, ◌++◌, length, arith, Map, lookup, nat_key, bytes_key,
  nat_eq_iff,
}
use ultimate_db.Locks.{
  exclusive, Key, Waiter, LockKey, LockManager, new_lock_manager, is_member, acquire, resume,
  release, release_all,
}
use ultimate_db.Locks.Invariant.{Inv, holds, Inv-new_lock_manager, acquire-Inv, resume-Inv}
use ultimate_db.Locks.Release.{release-Inv, release_all-Inv}

-- One critical section of the manager's mutex. `wake` is a blocked call that goes on after its
-- channel was sent a value.
pub data Step (s : LockManager) : LockManager → Type 0 where
  call : (w : Waiter) → Step s (acquire s w).0
  wake :
      (w : Waiter) (before after : List Waiter)
      → s.woken ≡ before ++ w ∷ after
      → Step s (resume (record s { woken = before ++ after }) w).0
  let_go : (txn : ℕ) (key : Key) → Step s (release s txn key)
  finish : (txn : ℕ) → Step s (release_all s txn)

pub data Reach : LockManager → Type 0 where
  start : Reach new_lock_manager
  next : {s t : LockManager} → Reach s → Step s t → Reach t

Step-Inv : {s t : LockManager} → Step s t → Inv s → Inv t
Step-Inv (call w) inv = acquire-Inv inv w
Step-Inv (wake w before after e) inv =
    resume-Inv (record { locked = inv.locked; listed = inv.listed }) w
Step-Inv {s} (let_go txn key) inv = release-Inv s txn key inv
Step-Inv {s} (finish txn) inv = release_all-Inv s txn inv

pub Reach-Inv : {s : LockManager} → Reach s → Inv s
Reach-Inv start = Inv-new_lock_manager
Reach-Inv (next r st) = Step-Inv st (Reach-Inv r)

one_entry :
    (a b : ℕ) (m : Map ℕ Bool)
    → length m ≡ 1
    → is_member (lookup a m) ≡ true
    → is_member (lookup b m) ≡ true
    → a ≡ b
unfolding lookup
one_entry a b [] e ha hb = absurd (omega arith)
one_entry a b ((i, v) ∷ []) e ha hb = ground (arith, nat_eq_iff i a, nat_eq_iff i b)
one_entry a b ((i, v) ∷ x ∷ m) e ha hb = absurd (omega arith)

-- In every reachable state a lock in exclusive mode has one holder.
pub mutual_exclusion :
    {s : LockManager} (key : Key) (lk : LockKey) (a b : ℕ)
    → Reach s
    → lookup key s.locks ≡ some lk
    → lk.mode ≡ exclusive
    → holds s a key ≡ true
    → holds s b key ≡ true
    → a ≡ b
mutual_exclusion key lk a b r at e ha hb =
    one_entry a b lk.holders (((Reach-Inv r).locked key lk at).alone e) (ground (arith, at))
      (ground (arith, at))
