-- ===== src/Locks/Waking.antt =====
-- Which calls of `Acquire` block, and which releases wake them.
use ultimate_db.Prelude.{
  ℕ, ◌≡◌, ◌≢◌, Bool, true, false, ◌&&◌, ◌||◌, none, some, List, [], ◌∷◌, ◌++◌, length, arith,
  if◌then◌else◌, lookup, insert, delete, lookup-delete, lookup-insert, lookup-insert_self, nat_key,
  bytes_key, nat_eq, nat_eq_iff, bytes_eq, bytes_eq_iff, bytes_eq_refl, ap, ◌∙◌, Option-cases, inl,
  inr,
}
use ultimate_db.Locks.{
  shared, exclusive, Key, Waiter, LockKey, LockManager, Outcome, granted, blocked, acquire, contend,
  grant_new, add_txn_lock, release, drop_holder,
}
use ultimate_db.Locks.Invariant.{holds}

-- A release wakes the calls queued on the lock exactly when it takes away the last holder, and
-- then it wakes all of them and the lock is gone.
pub woken-release :
    (s : LockManager) (txn : ℕ) (key : Key) (lk : LockKey)
    → lookup key s.locks ≡ some lk
    → ((release s txn key).woken
        ≡ (if nat_eq (length (delete txn lk.holders)) 0 then s.woken ++ lk.waiters else s.woken))
      × (lookup key (release s txn key).locks ≡ (
          if nat_eq (length (delete txn lk.holders)) 0
          then none
          else some (record lk { holders = delete txn lk.holders })))
unfolding release drop_holder
woken-release s txn key lk at =
    rw (at, release)
      (ground (
        arith,
        bytes_eq_refl key,
        lookup-delete key key s.locks,
        lookup-insert key key (record lk { holders = delete txn lk.holders }) s.locks,
      ))

abbrev pub is_granted : Outcome → Bool
is_granted granted = true
is_granted blocked = false

-- A call that is let through holds the lock; a call that is not let through leaves the holders
-- as they were.
pub acquire_outcome :
    (s : LockManager) (w : Waiter) (u : ℕ) (k : Key)
    → holds (acquire s w).0 u k
      ≡ (holds s u k || is_granted (acquire s w).1 && nat_eq w.txn u && bytes_eq w.key k)
acquire_outcome s w u k = elim (Option-cases (lookup w.key s.locks)) [
  | inl e ↦ new_lock e
  | inr (lk, e) ↦ old_lock lk e
]
  where
    new_lock :
        lookup w.key s.locks ≡ none
        → holds (acquire s w).0 u k
          ≡ (holds s u k || is_granted (acquire s w).1 && nat_eq w.txn u && bytes_eq w.key k)
    new_lock e =
        unfold acquire grant_new add_txn_lock lookup in
        ground (
          arith,
          e,
          lookup-insert w.key k
              (record { mode = w.mode; holders = (w.txn, true) ∷ []; waiters = [] }) s.locks,
          bytes_eq_iff w.key k,
          nat_eq_iff w.txn u,
        )

    old_lock :
        (lk : LockKey)
        → lookup w.key s.locks ≡ some lk
        → holds (acquire s w).0 u k
          ≡ (holds s u k || is_granted (acquire s w).1 && nat_eq w.txn u && bytes_eq w.key k)
    old_lock lk e =
        unfold acquire contend add_txn_lock in
        ground (
          arith,
          e,
          bytes_eq_iff w.key k,
          nat_eq_iff w.txn u,
          lookup-insert w.txn u true lk.holders,
          lookup-insert w.key k (record lk { mode = exclusive }) s.locks,
          lookup-insert w.key k (record lk { waiters = lk.waiters ++ w ∷ [] }) s.locks,
          lookup-insert w.key k (record lk { holders = insert w.txn true lk.holders }) s.locks,
        )

abbrev pub shared_by : ℕ → ℕ → List Waiter → LockKey
shared_by a b ws = record { mode = shared; holders = (a, true) ∷ (b, true) ∷ []; waiters = ws }

abbrev queued_state : LockManager → Waiter → LockKey → LockManager
queued_state s w lk = record s {
  locks = insert w.key (record lk { waiters = lk.waiters ++ w ∷ [] }) s.locks;
}

upgrade_queued :
    (s : LockManager) (key : Key) (a b : ℕ) (ws : List Waiter)
    → lookup key s.locks ≡ some (shared_by a b ws)
    → acquire s (record { txn = a; key = key; mode = exclusive }) ≡ (
      queued_state s (record { txn = a; key = key; mode = exclusive }) (shared_by a b ws),
      blocked,
    )
unfolding acquire contend lookup
upgrade_queued s key a b ws at = rw (at, acquire) (ground arith)

-- Two holders share a lock and one asks for it exclusively. It is queued, and the release of the
-- other does not wake it, although it is then the only holder.
pub upgrade_not_woken :
    (s : LockManager) (key : Key) (a b : ℕ) (ws : List Waiter)
    → a ≢ b
    → lookup key s.locks ≡ some (shared_by a b ws)
    → ((acquire s (record { txn = a; key = key; mode = exclusive })).1 ≡ blocked)
      × ((release (acquire s (record { txn = a; key = key; mode = exclusive })).0 b key).woken
          ≡ s.woken)
      × (lookup key
            (release (acquire s (record { txn = a; key = key; mode = exclusive })).0 b key).locks
          ≡ some (record {
            mode = shared;
            holders = (a, true) ∷ [];
            waiters = ws ++ record { txn = a; key = key; mode = exclusive } ∷ [];
          }))
unfolding delete
upgrade_not_woken s key a b ws ne at =
    let w : Waiter = record { txn = a; key = key; mode = exclusive } in
    let e = upgrade_queued s key a b ws at in
    let (woken, lock) =
      woken-release (queued_state s w _) b key _ (lookup-insert_self key _ s.locks) in
    (
      ap (λ p. p.1) e,
      ap (λ p. (release p.0 b key).woken) e ∙ woken ∙ ground (arith, nat_eq_iff a b),
      ap (λ p. lookup key (release p.0 b key).locks) e ∙ lock ∙ ground (arith, nat_eq_iff a b),
    )
