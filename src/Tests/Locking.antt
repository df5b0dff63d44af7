-- ===== src/Tests/Locking.antt =====
-- The lock manager: two readers, a writer, and the upgrade of a shared lock.
use ultimate_db.Prelude.{
  ℕ, ◌≡◌, ◌≢◌, refl, true, not, ◌&&◌, ◌||◌, none, some, [], ◌∷◌, ◌++◌, arith, if◌then◌else◌, lookup,
  delete, bytes_key, nat_key, bytes_eq, nat_eq, length, insert,
}
use ultimate_db.Locks.{
  shared, exclusive, Key, Waiter, LockManager, blocked, new_lock_manager, acquire, release,
  release_all,
}
use ultimate_db.Locks.Invariant.{holds, acquire-Inv, Inv-new_lock_manager}
use ultimate_db.Locks.Release.{holds-release_all}
use ultimate_db.Locks.Waking.{
  woken-release, acquire_outcome, upgrade_not_woken, is_granted, shared_by,
}
use ultimate_db.Locks.Safety.{start, next, call, mutual_exclusion}

abbrev k : Key
k = 107 ∷ []

abbrev reader1 : Waiter
reader1 = record { txn = 1; key = k; mode = shared }

abbrev reader2 : Waiter
reader2 = record { txn = 2; key = k; mode = shared }

abbrev writer : Waiter
writer = record { txn = 1; key = k; mode = exclusive }

abbrev locked : LockManager
locked = (acquire new_lock_manager writer).0

writer_lock :
    lookup k locked.locks
    ≡ some (record { mode = exclusive; holders = (1, true) ∷ []; waiters = [] })
unfolding acquire lookup insert bytes_eq
writer_lock = refl

writer_holds : holds locked 1 k ≡ true
unfolding acquire lookup insert bytes_eq
writer_holds = refl

mutual_exclusion_example : ◌≡◌ {A = ℕ} 1 1
mutual_exclusion_example =
    mutual_exclusion k (record { mode = exclusive; holders = (1, true) ∷ []; waiters = [] }) 1 1
      (next start (call writer)) writer_lock refl writer_holds writer_holds

holds-release_all_example :
    holds (release_all locked 1) 1 k ≡ (holds locked 1 k && not (nat_eq 1 1))
holds-release_all_example = holds-release_all locked 1 (acquire-Inv Inv-new_lock_manager writer) 1 k

abbrev sharing : LockManager
sharing = (acquire (acquire new_lock_manager reader1).0 reader2).0

sharing_lock : lookup k sharing.locks ≡ some (shared_by 1 2 [])
unfolding acquire lookup insert bytes_eq
sharing_lock = refl

one-ne-two : ◌≢◌ {A = ℕ} 1 2
one-ne-two = omega arith

upgrade_not_woken_example :
    ((acquire sharing writer).1 ≡ blocked)
    × ((release (acquire sharing writer).0 2 k).woken ≡ sharing.woken)
    × (lookup k (release (acquire sharing writer).0 2 k).locks
        ≡ some (record { mode = shared; holders = (1, true) ∷ []; waiters = writer ∷ [] }))
upgrade_not_woken_example = upgrade_not_woken sharing k 1 2 [] one-ne-two sharing_lock

acquire_outcome_test :
    holds (acquire sharing writer).0 1 k
    ≡ (holds sharing 1 k || is_granted (acquire sharing writer).1 && nat_eq 1 1 && bytes_eq k k)
acquire_outcome_test = acquire_outcome sharing writer 1 k

woken-release_test :
    ((release sharing 1 k).woken ≡ (
      if nat_eq (length (delete 1 (shared_by 1 2 []).holders)) 0
      then sharing.woken ++ []
      else sharing.woken))
    × (lookup k (release sharing 1 k).locks ≡ (
        if nat_eq (length (delete 1 (shared_by 1 2 []).holders)) 0
        then none
        else some (record (shared_by 1 2 []) { holders = delete 1 (shared_by 1 2 []).holders })))
woken-release_test = woken-release sharing 1 k (shared_by 1 2 []) sharing_lock
