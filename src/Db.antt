-- ===== src/Db.antt =====
-- db.go: records in slotted pages under transaction visibility. Each operation takes the page's
-- bytes, the clock (`time.Now().UnixNano()`, read once for an operation) and the set of active
-- transactions, and returns the new bytes. `panic` is a Go panic on a slice out of range.
pub mod Read
pub mod Scan
pub mod Compact
pub mod Write
pub mod Laws
pub mod Restore
use ultimate_db.Prelude.{
  ℕ, ◌^◌, ◌<◌, Bool, true, false, ◌&&◌, Option, none, some, leb, ltb, Map, lookup, nat_key,
}

pub data Code : Type 0 where
  key_not_found page_overflow pointer_anomaly : Code

pub data Result {ℓ} (A : Type ℓ) : Type ℓ where
  ok : A → Result A
  err : Code → Result A
  panic : Result A

-- `activeTxns`, a `sync.Map` whose values are all `true`.
abbrev pub ActiveTxns : Type 0
ActiveTxns = Map ℕ Bool

unfoldable pub is_active : ActiveTxns → ℕ → Bool
unfolding lookup
is_active active id = elim (lookup id active) [ none ↦ false | some _ ↦ true ]

unfoldable pub is_record_visible : ℕ → ℕ → Bool → Bool
is_record_visible record_txn read_txn true = leb record_txn read_txn
is_record_visible record_txn read_txn false = true

-- `int64(expiresAt) > now`: an expiry with its top bit set is negative.
unfoldable pub not_expired : ℕ → ℕ → Bool
not_expired expires_at now = ltb expires_at (2 ^ 63) && ltb now expires_at
