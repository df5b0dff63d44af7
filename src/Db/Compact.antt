-- ===== src/Db/Compact.antt =====
-- `compactPage` of db.go: the page is rebuilt from one record for each key.
pub mod Size
pub mod Rebuild
pub mod Order
use ultimate_db.Prelude.{
  ℕ, zero, suc, ◌+◌, ◌*◌, ◌≤◌, ◌<◌, ◌≡◌, refl, ◌∙◌, ap, Bool, true, false, ◌&&◌, ◌||◌, Option, none,
  some, List, [], ◌∷◌, ◌++◌, arith, ltb, if◌then◌else◌, bytes_key, Map, lookup, insert, length, All,
  length-append,
}
use ultimate_db.Memory.{Memory}
use ultimate_db.Page.{u32, init, set_slot_count, get_slot_count}
use ultimate_db.Page.Record.{Record, record_size, Fits}
use ultimate_db.Page.Place.{place_record}
use ultimate_db.Page.Contents.{
  Holds, Packed, SlotsHold, total_size, total_size-append, place_record-Packed,
}
use ultimate_db.Page.Init.{init-Holds}
use ultimate_db.Page.Loop.{each_slot, visit_all, each_slot-Holds}
use ultimate_db.Db.{not_expired}

abbrev pub LatestRecords : Type 0
LatestRecords = Map (List ℕ) Record

-- !exists || recordTxnID > existing.txnID
unfoldable pub newer : Record → Option Record → Bool
newer r none = true
newer r (some e) = ltb e.txn_id r.txn_id

unfoldable pub compact_body : ℕ → ℕ → Record → LatestRecords → LatestRecords
unfolding newer not_expired
compact_body now i r latest =
    if newer r (lookup r.key latest)
    then (if not_expired r.expires_at now then insert r.key r latest else latest)
    else latest

-- The loop that packs the records again, in the order of the list, where Go takes any; `none` is a
-- panic.
unfoldable pub repack : Memory → ℕ → LatestRecords → Option Memory
repack m idx [] = some (set_slot_count m (u32 idx))
repack m idx ((k, r) ∷ rest) = elim (place_record m idx r) [
  | none ↦ none
  | some m' ↦ repack m' (suc idx) rest
]

unfoldable pub compact_page : ℕ → Memory → Option Memory
unfolding each_slot compact_body repack
compact_page now m = elim (each_slot m (compact_body now) []) [
  | none ↦ none
  | some latest ↦ repack (init m) 0 latest
]

abbrev pub values : LatestRecords → List Record
values [] = []
values ((k, r) ∷ rest) = r ∷ values rest

-- The records that a compaction at time `now` keeps.
unfoldable pub survivors : ℕ → List Record → List Record
unfolding compact_body
survivors now rs = values (visit_all (compact_body now) 0 rs [])
