-- ===== src/Cache.antt =====
-- The multi-version cache of query.go: `MVCCCacheStore` with optimistic validation. The clock is an
-- argument of each operation; the error does not name the key. `validate` and `commit_versions` are the two loops of
-- ValidateAndCommit, and a write set is a Go map.
pub mod Commit
use ultimate_db.Prelude.{
  ℕ, suc, ◌+◌, ◌%◌, ◌^◌, Bool, true, false, not, ◌&&◌, ◌||◌, Option, none, some, List, [], ◌∷◌,
  ◌++◌, ltb, leb, nat_eq, if◌then◌else◌, Map, lookup, insert, delete, each_entry, nat_key, ℤ, pos,
  negsuc, bytes_key,
}

pub record MvccRecord : Type 0 where
  pub version : ℕ
  pub txn_id : ℕ
  pub value : Option (List ℕ)
  pub deleted : Bool
  pub expired_at : Option ℕ

pub record MvccCacheStore : Type 0 where
  pub recs : Map (List ℕ) (List MvccRecord)
  pub txn_id_gen : ℕ
  pub active_tx : Map ℕ ℕ

pub data CacheError : Type 0 where
  no_transaction no_key tombstoned no_version write_conflict : CacheError

pub data Reply {ℓ} (A : Type ℓ) : Type ℓ where
  value : A → Reply A
  refused : CacheError → Reply A

abbrev pub new_cache_store : MvccCacheStore
new_cache_store = record { recs = []; txn_id_gen = 0; active_tx = [] }

abbrev pub chain_of : Option (List MvccRecord) → List MvccRecord
chain_of none = []
chain_of (some vs) = vs

unfoldable pub begin_occ : ℕ → MvccCacheStore → MvccCacheStore × ℕ
begin_occ now c =
    let id = (c.txn_id_gen + 1) % 2 ^ 64 in
    (record c { txn_id_gen = id; active_tx = insert id now c.active_tx }, id)

-- !v.ExpiredAt.IsZero() && time.Now().After(v.ExpiredAt)
abbrev pub is_past : ℕ → Option ℕ → Bool
is_past now none = false
is_past now (some t) = ltb t now

abbrev pub reveal : ℕ → MvccRecord → Reply (Option (List ℕ))
reveal now v = if v.deleted || is_past now v.expired_at then refused tombstoned else value v.value

-- The loop of `Read`, which goes down from the last version: the answer of the later versions, if
-- one of them is visible.
unfoldable pub scan_versions : ℕ → ℕ → ℕ → List MvccRecord → Option (Reply (Option (List ℕ)))
scan_versions now txn read_ts [] = none
scan_versions now txn read_ts (v ∷ vs) = elim (scan_versions now txn read_ts vs) [
  | some r ↦ some r
  | none ↦ if leb v.txn_id txn || leb v.version read_ts then some (reveal now v) else none
]

abbrev pub or_no_version : Option (Reply (Option (List ℕ))) → Reply (Option (List ℕ))
or_no_version none = refused no_version
or_no_version (some r) = r

abbrev pub read_chain : ℕ → ℕ → ℕ → List MvccRecord → Reply (Option (List ℕ))
read_chain now txn read_ts [] = refused no_key
read_chain now txn read_ts (v ∷ vs) = or_no_version (scan_versions now txn read_ts (v ∷ vs))

unfoldable pub cache_read : ℕ → MvccCacheStore → ℕ → List ℕ → Reply (Option (List ℕ))
unfolding scan_versions
cache_read now c txn key = elim (lookup txn c.active_tx) [
  | none ↦ refused no_transaction
  | some read_ts ↦ read_chain now txn read_ts (chain_of (lookup key c.recs))
]

-- readTs := c.activeTx[txID], where a missing key reads as 0
abbrev pub read_ts_of : MvccCacheStore → ℕ → ℕ
read_ts_of c txn = elim (lookup txn c.active_tx) [ none ↦ 0 | some t ↦ t ]

-- latest.Version > readTs && latest.TxnID != txID, on the last version of the chain
unfoldable pub conflicts : ℕ → ℕ → List MvccRecord → Bool
conflicts txn read_ts [] = false
conflicts txn read_ts (v ∷ []) = ltb read_ts v.version && not (nat_eq v.txn_id txn)
conflicts txn read_ts (v ∷ w ∷ vs) = conflicts txn read_ts (w ∷ vs)

abbrev pub WriteSet : Type 0
WriteSet = Map (List ℕ) (Option (List ℕ))

-- Whether some key of the write set has a conflict.
unfoldable pub validate : MvccCacheStore → ℕ → WriteSet → Bool
unfolding conflicts
validate c txn [] = true
validate c txn ((key, val) ∷ rest) =
    let ok = validate c txn rest in
    if conflicts txn (read_ts_of c txn) (chain_of (lookup key c.recs)) then false else ok

abbrev is_nil : Option (List ℕ) → Bool
is_nil none = true
is_nil (some v) = false

-- The zero time is `none`.
abbrev pub expire_time : ℕ → ℤ → Option ℕ
expire_time now (pos ttl) = if ltb 0 ttl then some (now + ttl) else none
expire_time now (negsuc n) = none

unfoldable pub version_of : ℕ → ℕ → ℤ → Option (List ℕ) → MvccRecord
version_of now txn ttl val = record {
  version = now;
  txn_id = txn;
  value = val;
  deleted = is_nil val;
  expired_at = expire_time now ttl;
}

-- c.recs[key] = append(c.recs[key], rec)
unfoldable pub append_version :
    ℕ
    → ℕ
    → ℤ
    → List ℕ
    → Option (List ℕ)
    → Map (List ℕ) (List MvccRecord)
    → Map (List ℕ) (List MvccRecord)
unfolding version_of
append_version now txn ttl key val recs =
    insert key (chain_of (lookup key recs) ++ version_of now txn ttl val ∷ []) recs

unfoldable pub commit_versions :
    ℕ → ℕ → ℤ → WriteSet → Map (List ℕ) (List MvccRecord) → Map (List ℕ) (List MvccRecord)
unfolding append_version each_entry
commit_versions now txn ttl writes recs = each_entry (append_version now txn ttl) writes recs

unfoldable pub validate_and_commit :
    ℕ → MvccCacheStore → ℕ → WriteSet → ℤ → MvccCacheStore × Reply (Unit {0})
unfolding validate commit_versions
validate_and_commit now c txn writes ttl =
    if validate c txn writes
    then (
      record c {
        recs = commit_versions now txn ttl writes c.recs;
        active_tx = delete txn c.active_tx;
      },
      value tt,
    )
    else (record c { active_tx = delete txn c.active_tx }, refused write_conflict)
