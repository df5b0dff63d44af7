-- ===== src/Locks/Invariant.antt =====
-- What every step of the lock manager keeps.
use ultimate_db.Prelude.{
  ℕ, ◌+◌, ◌≤◌, ◌<◌, ◌≡◌, refl, Bool, true, false, Option, none, some, [], ◌∷◌, ◌++◌, length, arith,
  if◌then◌else◌, Map, lookup, insert, delete, lookup-insert, nat_key, bytes_key, nat_eq_iff,
  bytes_eq_iff, Eq, nat_eq, bytes_eq, ◌&&◌, ◌||◌, inl, inr, Bool-cases, Option-cases,
}
use ultimate_db.Locks.{
  LockMode, shared, exclusive, is_exclusive, is_shared, Key, Waiter, LockKey, LockManager,
  new_lock_manager, is_member, keys_of, add_txn_lock, grant_new, contend, acquire, resume,
}

module _ {ℓ κ} {K : Type ℓ} {V : Type κ} ⦃e : Eq K⦄ where
  length-insert :
      (k : K) (v : V) (m : Map K V)
      → (1 ≤ length (insert k v m)) × (length (insert k v m) ≤ length m + 1)
  unfolding insert
  length-insert k v [] = omega arith
  length-insert k v ((j, w) ∷ m) = ground (arith, length-insert k v m)

  pub length-delete : (k : K) (m : Map K V) → length (delete k m) ≤ length m
  unfolding delete
  length-delete k [] = omega arith
  length-delete k ((j, w) ∷ m) = ground (arith, length-delete k m)

-- Does the transaction hold the key's lock, and does its own table list the key?
abbrev pub holds_in : ℕ → Option LockKey → Bool
holds_in txn none = false
holds_in txn (some lk) = is_member (lookup txn lk.holders)

abbrev pub holds : LockManager → ℕ → Key → Bool
holds s txn key = holds_in txn (lookup key s.locks)

abbrev pub lists : LockManager → ℕ → Key → Bool
lists s txn key = is_member (lookup key (keys_of (lookup txn s.txns)))

pub record IsLock (lk : LockKey) : Type 0 where
  pub held : 0 < length lk.holders
  pub alone : lk.mode ≡ exclusive → length lk.holders ≡ 1

pub record Inv (s : LockManager) : Type 0 where
  pub locked : (key : Key) (lk : LockKey) → lookup key s.locks ≡ some lk → IsLock lk
  pub listed : (txn : ℕ) (key : Key) → holds s txn key ≡ true → lists s txn key ≡ true

pub Inv-new_lock_manager : Inv new_lock_manager
unfolding lookup
Inv-new_lock_manager = record { locked = λ key lk e. cc; listed = λ txn key e. cc }

shared_of_tests : (m n : LockMode) → (is_exclusive m || is_exclusive n) ≡ false → m ≡ shared
shared_of_tests shared n e = refl
shared_of_tests exclusive n e = cc

-- The table of a transaction after a key is added to it.
lists-add_txn_lock :
    (s : LockManager) (t u : ℕ) (j k : Key)
    → lists (add_txn_lock s t j) u k ≡ (nat_eq t u && bytes_eq j k || lists s u k)
unfolding add_txn_lock
lists-add_txn_lock s t u j k = ground (
  arith,
  lookup-insert t u (insert j true (keys_of (lookup t s.txns))) s.txns,
  lookup-insert j k true (keys_of (lookup t s.txns)),
  nat_eq_iff t u,
)

-- Who holds what after one lock is written.
holds-insert :
    (s : LockManager) (lk : LockKey) (u : ℕ) (j k : Key)
    → holds (record s { locks = insert j lk s.locks }) u k
      ≡ (if bytes_eq j k then is_member (lookup u lk.holders) else holds s u k)
holds-insert s lk u j k = ground (arith, lookup-insert j k lk s.locks)

locked-insert :
    (s : LockManager) (lk : LockKey) (j : Key)
    → Inv s
    → IsLock lk
    → (k : Key) (l : LockKey) → lookup k (insert j lk s.locks) ≡ some l
    → IsLock l
locked-insert s lk j inv h k l e = ground (arith, lookup-insert j k lk s.locks, inv.locked k l)

module _ {s : LockManager} (inv : Inv s) (w : Waiter) where
  abbrev fresh : LockKey
  fresh = record { mode = w.mode; holders = (w.txn, true) ∷ []; waiters = [] }

  holds-fresh : (u : ℕ) → is_member (lookup u fresh.holders) ≡ nat_eq w.txn u
  unfolding lookup
  holds-fresh u = ground arith

  grant_new-Inv : Inv (grant_new s w)
  unfolding grant_new
  grant_new-Inv = record {
    locked = locked-insert s fresh w.key inv (omega arith);
    listed = λ u k h. ground (
      arith,
      lists-add_txn_lock (record s { locks = insert w.key fresh s.locks }) w.txn u w.key k,
      holds-insert s fresh u w.key k,
      holds-fresh u,
      inv.listed u k,
    );
  }

  module _ (lk : LockKey) (at : lookup w.key s.locks ≡ some lk) where
    abbrev queued : LockKey
    queued = record lk { waiters = lk.waiters ++ w ∷ [] }

    abbrev joined : LockKey
    joined = record lk { holders = insert w.txn true lk.holders }

    queued-Inv : Inv (record s { locks = insert w.key queued s.locks })
    queued-Inv = record {
      locked = locked-insert s queued w.key inv (ground (arith, inv.locked w.key lk at));
      listed = λ u k h.
          ground (arith, holds-insert s queued u w.key k, inv.listed u k, bytes_eq_iff w.key k, at);
    }

    joined-Inv :
        lk.mode ≡ shared
        → Inv (add_txn_lock (record s { locks = insert w.key joined s.locks }) w.txn w.key)
    unfolding add_txn_lock
    joined-Inv e = record {
      locked =
          locked-insert s joined w.key inv (ground (arith, length-insert w.txn true lk.holders));
      listed = λ u k h. ground (
        arith,
        lists-add_txn_lock (record s { locks = insert w.key joined s.locks }) w.txn u w.key k,
        holds-insert s joined u w.key k,
        lookup-insert w.txn u true lk.holders,
        inv.listed u k,
        bytes_eq_iff w.key k,
        at,
      );
    }

    upgraded-Inv :
        length lk.holders ≡ 1
        → Inv (record s { locks = insert w.key (record lk { mode = exclusive }) s.locks })
    upgraded-Inv e = record {
      locked = locked-insert s (record lk { mode = exclusive }) w.key inv (ground (arith, e));
      listed = λ u k h. ground (
        arith,
        holds-insert s (record lk { mode = exclusive }) u w.key k,
        inv.listed u k,
        bytes_eq_iff w.key k,
        at,
      );
    }

    contend-Inv : Inv (contend s lk w).0
    unfolding contend
    contend-Inv = elim (Bool-cases (is_exclusive lk.mode || is_exclusive w.mode)) [
      | inl e ↦ rw e queued-Inv
      | inr e ↦ rw e (joined-Inv (shared_of_tests lk.mode w.mode e))
    ]

    acquire_held : Inv (acquire s w).0
    unfolding acquire
    acquire_held =
        rw (at, acquire)
          (elim (Bool-cases
            (is_member (lookup w.txn lk.holders) && (is_exclusive lk.mode || is_shared w.mode))) [
              | inl e ↦ rw e inv
              | inr e ↦
                  rw e
                    (elim (Bool-cases
                      (is_member (lookup w.txn lk.holders) && nat_eq (length lk.holders) 1)) [
                        | inl f ↦ rw f (upgraded-Inv (ground (arith, f)))
                        | inr f ↦ rw f contend-Inv
                      ])
            ])

    resume_held : Inv (resume s w).0
    unfolding resume
    resume_held = rw (at, resume) contend-Inv

  pub acquire-Inv : Inv (acquire s w).0
  unfolding acquire
  acquire-Inv = elim (Option-cases (lookup w.key s.locks)) [
    | inl e ↦ rw (e, acquire) grant_new-Inv
    | inr (lk, e) ↦ acquire_held lk e
  ]

  pub resume-Inv : Inv (resume s w).0
  unfolding resume
  resume-Inv = elim (Option-cases (lookup w.key s.locks)) [
    | inl e ↦ rw (e, resume) grant_new-Inv
    | inr (lk, e) ↦ resume_held lk e
  ]
