-- ===== src/Locks/Release.antt =====
-- `Release` and `ReleaseAll`: who still holds what, and who is woken.
use ultimate_db.Prelude.{
  ℕ, ◌≡◌, refl, ◌∙◌, Bool, false, not, ◌&&◌, none, some, [], ◌∷◌, length, arith, Map, lookup,
  delete, lookup-insert, lookup-delete, nat_key, bytes_key, nat_eq_iff, bytes_eq_iff, nat_eq,
  bytes_eq, inl, inr, Option-cases,
}
use ultimate_db.Locks.{
  Key, LockKey, LockManager, is_member, keys_of, drop_holder, drop_txn_lock, release, release_one,
  release_keys, release_all,
}
use ultimate_db.Locks.Invariant.{Inv, IsLock, holds, lists, length-delete}

lookup_of_empty : (u : ℕ) (m : Map ℕ Bool) → length m ≡ 0 → is_member (lookup u m) ≡ false
unfolding lookup
lookup_of_empty u [] e = refl
lookup_of_empty u (x ∷ m) e = absurd (omega arith)

module _ (s : LockManager) (txn : ℕ) (key : Key) (lk : LockKey)
    (at : lookup key s.locks ≡ some lk) where
  pub txns-drop_holder : (drop_holder s txn key lk).txns ≡ s.txns
  unfolding drop_holder
  txns-drop_holder = ground arith

  -- Exactly the one holding goes.
  pub holds-drop_holder :
      (u : ℕ) (k : Key)
      → holds (drop_holder s txn key lk) u k ≡ (holds s u k && not (nat_eq txn u && bytes_eq key k))
  unfolding drop_holder
  holds-drop_holder u k = ground (
    arith,
    at,
    lookup-delete txn u lk.holders,
    lookup_of_empty u (delete txn lk.holders),
    lookup-delete key k s.locks,
    lookup-insert key k (record lk { holders = delete txn lk.holders }) s.locks,
    bytes_eq_iff key k,
  )

  pub locked-drop_holder :
      ((k : Key) (l : LockKey) → lookup k s.locks ≡ some l → IsLock l)
      → (k : Key) (l : LockKey) → lookup k (drop_holder s txn key lk).locks ≡ some l
      → IsLock l
  unfolding drop_holder
  locked-drop_holder inv k l e = ground (
    arith,
    at,
    length-delete txn lk.holders,
    lookup-delete key k s.locks,
    lookup-insert key k (record lk { holders = delete txn lk.holders }) s.locks,
    inv k l,
    inv key lk,
  )

module _ (s : LockManager) (txn : ℕ) (key : Key) where
  txns-release_one : (release_one s txn key).txns ≡ s.txns
  unfolding release_one
  txns-release_one = elim (Option-cases (lookup key s.locks)) [
    | inl e ↦ rw (e, release_one) refl
    | inr (lk, e) ↦ rw (e, release_one) (txns-drop_holder s txn key lk e)
  ]

  holds-release_one :
      (u : ℕ) (k : Key)
      → holds (release_one s txn key) u k ≡ (holds s u k && not (nat_eq txn u && bytes_eq key k))
  unfolding release_one
  holds-release_one u k = elim (Option-cases (lookup key s.locks)) [
    | inl e ↦ rw (e, release_one) (ground (arith, e, bytes_eq_iff key k))
    | inr (lk, e) ↦ rw (e, release_one) (holds-drop_holder s txn key lk e u k)
  ]

  locked-release_one :
      ((k : Key) (l : LockKey) → lookup k s.locks ≡ some l → IsLock l)
      → (k : Key) (l : LockKey) → lookup k (release_one s txn key).locks ≡ some l
      → IsLock l
  unfolding release_one
  locked-release_one inv = elim (Option-cases (lookup key s.locks)) [
    | inl e ↦ rw (e, release_one) inv
    | inr (lk, e) ↦ rw (e, release_one) (locked-drop_holder s txn key lk e inv)
  ]

abbrev lists_in : ℕ → Key → Map ℕ (Map Key Bool) → Bool
lists_in u k txns = is_member (lookup k (keys_of (lookup u txns)))

lists-drop_txn_lock :
    (txn u : ℕ) (key k : Key) (txns : Map ℕ (Map Key Bool))
    → lists_in u k (drop_txn_lock txn key txns)
      ≡ (lists_in u k txns && not (nat_eq txn u && bytes_eq key k))
unfolding drop_txn_lock
lists-drop_txn_lock txn u key k txns = elim (Option-cases (lookup txn txns)) [
  | inl e ↦ rw (e, drop_txn_lock) (ground (arith, e, nat_eq_iff txn u, no_key k))
  | inr (keys, e) ↦
      rw (e, drop_txn_lock)
        (ground (
          arith,
          e,
          lookup-insert txn u (delete key keys) txns,
          lookup-delete key k keys,
          nat_eq_iff txn u,
        ))
]
  where
    no_key : (j : Key) → is_member (lookup j (keys_of none)) ≡ false
    no_key j = unfold lookup in refl

module _ (s : LockManager) (txn : ℕ) (key : Key) where
  release-eq :
      (lk : LockKey)
      → lookup key s.locks ≡ some lk
      → release s txn key ≡ release_one (record s { txns = drop_txn_lock txn key s.txns }) txn key
  unfolding release release_one
  release-eq lk e = rw (e, release, release_one)

  -- `Release` takes one holding away and no other.
  pub holds-release :
      (u : ℕ) (k : Key)
      → holds (release s txn key) u k ≡ (holds s u k && not (nat_eq txn u && bytes_eq key k))
  unfolding release
  holds-release u k = elim (Option-cases (lookup key s.locks)) [
    | inl e ↦ rw (e, release) (ground (arith, e, bytes_eq_iff key k))
    | inr (lk, e) ↦
        rw (release-eq lk e)
          (holds-release_one (record s { txns = drop_txn_lock txn key s.txns }) txn key u k)
  ]

  pub release-Inv : Inv s → Inv (release s txn key)
  unfolding release
  release-Inv inv = elim (Option-cases (lookup key s.locks)) [
    | inl e ↦ rw (e, release) inv
    | inr (lk, e) ↦ rw (release-eq lk e) (record {
      locked = locked-release_one s' txn key inv.locked;
      listed = λ u k h. ground (
        arith,
        holds-release_one s' txn key u k,
        txns-release_one s' txn key,
        lists-drop_txn_lock txn u key k s.txns,
        inv.listed u k,
      );
    })
  ]
    where
      s' : LockManager
      s' = record s { txns = drop_txn_lock txn key s.txns }

holds-release_keys :
    (s : LockManager) (txn : ℕ) (keys : Map Key Bool) (u : ℕ) (k : Key)
    → holds (release_keys s txn keys) u k
      ≡ (holds s u k && not (nat_eq txn u && is_member (lookup k keys)))
unfolding release_keys lookup
holds-release_keys s txn [] u k = ground arith
holds-release_keys s txn ((key, b) ∷ rest) u k = ground (
  arith,
  holds-release_keys (release_one s txn key) txn rest u k,
  holds-release_one s txn key u k,
)

txns-release_keys :
    (s : LockManager) (txn : ℕ) (keys : Map Key Bool) → (release_keys s txn keys).txns ≡ s.txns
unfolding release_keys
txns-release_keys s txn [] = refl
txns-release_keys s txn ((key, b) ∷ rest) =
    txns-release_keys (release_one s txn key) txn rest ∙ txns-release_one s txn key

locked-release_keys :
    (s : LockManager) (txn : ℕ) (keys : Map Key Bool)
    → ((k : Key) (l : LockKey) → lookup k s.locks ≡ some l → IsLock l)
    → (k : Key) (l : LockKey) → lookup k (release_keys s txn keys).locks ≡ some l
    → IsLock l
unfolding release_keys
locked-release_keys s txn [] inv = inv
locked-release_keys s txn ((key, b) ∷ rest) inv =
    locked-release_keys (release_one s txn key) txn rest (locked-release_one s txn key inv)

module _ (s : LockManager) (txn : ℕ) (inv : Inv s) where
  -- `ReleaseAll` takes away every holding of the transaction and no other.
  pub holds-release_all :
      (u : ℕ) (k : Key) → holds (release_all s txn) u k ≡ (holds s u k && not (nat_eq txn u))
  unfolding release_all
  holds-release_all u k = elim (Option-cases (lookup txn s.txns)) [
    | inl e ↦ rw (e, release_all) (ground (arith, e, nat_eq_iff txn u, inv.listed txn k, no_key k))
    | inr (keys, e) ↦
        rw (e, release_all)
          (holds-release_keys s txn keys u k
            ∙ ground (arith, e, nat_eq_iff txn u, inv.listed txn k))
  ]
    where
      no_key : (j : Key) → is_member (lookup j (keys_of none)) ≡ false
      no_key j = unfold lookup in refl

  lists-release_all :
      (u : ℕ) (k : Key) → nat_eq txn u ≡ false → lists (release_all s txn) u k ≡ lists s u k
  unfolding release_all
  lists-release_all u k ne = elim (Option-cases (lookup txn s.txns)) [
    | inl e ↦ rw (e, release_all) refl
    | inr (keys, e) ↦
        rw (e, release_all)
          (ground (
            arith,
            ne,
            lookup-delete txn u (release_keys s txn keys).txns,
            txns-release_keys s txn keys,
          ))
  ]

  pub release_all-Inv : Inv (release_all s txn)
  unfolding release_all
  release_all-Inv = record {
    locked = elim (Option-cases (lookup txn s.txns)) [
      | inl e ↦ rw (e, release_all) inv.locked
      | inr (keys, e) ↦ rw (e, release_all) (locked-release_keys s txn keys inv.locked)
    ];
    listed =
        λ u k h. ground (arith, holds-release_all u k, lists-release_all u k, inv.listed u k, h);
  }
