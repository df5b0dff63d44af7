-- ===== src/Db/Write.antt =====
-- `Write` of db.go: a new record at the end of a slotted page, after a compaction if it has no room.
pub mod Refine
use ultimate_db.Prelude.{
  ℕ, ◌+◌, ◌-◌, ◌*◌, ◌^◌, ◌%◌, ◌≡◌, Bool, true, false, not, ◌||◌, Option, none, some, List, [], ◌∷◌,
  ◌++◌, ltb, leb, nat_eq, if◌then◌else◌, length, ℤ, pos, negsuc,
}
use ultimate_db.Memory.{Memory}
use ultimate_db.Page.{
  u32, page_size, init, is_safe_for_insert, get_slot_count, set_slot_count, get_lower_boundary,
  get_upper_boundary,
}
use ultimate_db.Page.Record.{Record, record_size}
use ultimate_db.Page.Place.{place_record}
use ultimate_db.Page.Contents.{total_size}
use ultimate_db.Db.{Result, ok, err, panic, page_overflow, pointer_anomaly}
use ultimate_db.Db.Compact.{compact_page, survivors}

-- The dynamic type of `mixParam`, with its value; any other type is ignored.
pub data MixParam : Type 0 where
  duration int64 int : ℤ → MixParam
  other : MixParam

-- 100 * 365 * 24 * time.Hour, in nanoseconds
abbrev pub far_future : ℕ
far_future = 100 * 365 * 24 * 3600 * 1000000000

abbrev ttl_expiry : ℕ → ℤ → ℕ
ttl_expiry now (pos v) = if ltb 0 v then (now + v) % 2 ^ 64 else (now + far_future) % 2 ^ 64
ttl_expiry now (negsuc v) = (now + far_future) % 2 ^ 64

unfoldable pub expiry_of : ℕ → MixParam → ℕ
expiry_of now (duration v) = ttl_expiry now v
expiry_of now (int64 v) = ttl_expiry now v
expiry_of now (int v) = ttl_expiry now v
expiry_of now other = (now + far_future) % 2 ^ 64

-- A page that was never formatted is formatted first.
unfoldable pub heal : Memory → Memory
heal m =
    let upper = get_upper_boundary m in if nat_eq upper 0 || ltb page_size upper then init m else m

-- The second half of `Write`: the record goes below the last one.
unfoldable pub insert_record : Memory → Record → Memory × Result (Unit {0})
insert_record m r =
    let size = u32 (record_size r) in
    let at = u32 (get_upper_boundary m + 2 ^ 32 - size) in
    let slots = get_slot_count m in
    if not (is_safe_for_insert m size)
    then (m, err page_overflow)
    else if ltb at (get_lower_boundary m) || ltb page_size at
    then (m, err pointer_anomaly)
    else elim (place_record m slots r) [
      | none ↦ (m, panic)
      | some m' ↦ (set_slot_count m' (u32 (slots + 1)), ok tt)
    ]

-- The page is compacted if it has no room for the record; `none` is a panic.
unfoldable pub make_room : ℕ → Memory → ℕ → Option Memory
make_room now m size = if is_safe_for_insert m size then some m else compact_page now m

unfoldable pub write_record : ℕ → Memory → Record → Memory × Result (Unit {0})
unfolding heal make_room insert_record
write_record now m r = elim (make_room now (heal m) (u32 (record_size r))) [
  | none ↦ (heal m, panic)
  | some m' ↦ insert_record m' r
]

unfoldable pub write : ℕ → Memory → ℕ → List ℕ → List ℕ → MixParam → Memory × Result (Unit {0})
unfolding expiry_of write_record
write now m txn key value mix =
    write_record now m
      (record { txn_id = txn; expires_at = expiry_of now mix; key = key; value = value })

-- The specification, on the records of the page: room is measured in bytes.
unfoldable pub has_room : List Record → Record → Bool
has_room rs r = leb (32 + 4 * length rs + 4 + record_size r + total_size rs) page_size

unfoldable pub kept : ℕ → List Record → Record → List Record
unfolding has_room
kept now rs r = if has_room rs r then rs else survivors now rs

unfoldable pub written : ℕ → List Record → Record → List Record
unfolding kept has_room
written now rs r =
    let before = kept now rs r in if has_room before r then before ++ r ∷ [] else before

unfoldable pub write_reply : ℕ → List Record → Record → Result (Unit {0})
unfolding kept has_room
write_reply now rs r = if has_room (kept now rs r) r then ok tt else err page_overflow
