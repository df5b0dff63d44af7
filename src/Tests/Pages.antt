-- ===== src/Tests/Pages.antt =====
-- Slotted pages: a formatted page with one or two records.
use ultimate_db.Prelude.{
  ℕ, ◌≡◌, refl, true, false, ◌&&◌, none, some, List, [], ◌∷◌, arith, if◌then◌else◌, bytes_eq,
  lookup, insert,
}
use ultimate_db.Page.Loop.{visit_all}
use mathlib.Core.Path.{subst}
use mathlib.Core.Logic.{◌≢◌}
use mathlib.Core.List.{Permᴰ}
use ultimate_db.Bytes.{has_prefix}
use ultimate_db.Memory.{Memory}
use ultimate_db.Page.{init}
use ultimate_db.Page.Record.{Record, Fits}
use ultimate_db.Page.Contents.{Holds}
use ultimate_db.Page.Init.{init-Holds}
use ultimate_db.Db.{ok, err, panic, key_not_found, ActiveTxns, not_expired}
use ultimate_db.Db.Read.{visible, read, read_spec, read-eq-read_spec}
use ultimate_db.Db.Scan.{Latest, scan_latest, scanned, found, scan-read}
use ultimate_db.Db.Compact.{LatestRecords, compact_page, survivors, compact_body, repack, values}
use ultimate_db.Db.Compact.Order.{latest_of, read-repack}
use ultimate_db.Db.Compact.Rebuild.{compact_page-Holds}
use ultimate_db.Db.Write.{write_record, has_room, written, write_reply}
use ultimate_db.Db.Write.Refine.{write_record-refines}
use ultimate_db.Db.Laws.{
  value_reply, read-write_self, read-write_other, reply-write_record, Request, run,
  run-IsWellFormed, compaction_forgets_deletion,
}

abbrev blank : Memory
blank i = 0

-- The key "a" with the value "x", written by transaction 3.
abbrev item : Record
item = record { txn_id = 3; expires_at = 900; key = 97 ∷ []; value = 120 ∷ [] }

-- A deletion of "a": the record has expired at time 100.
abbrev tombstone : Record
tombstone = record { txn_id = 4; expires_at = 50; key = 97 ∷ []; value = [] }

item-Fits : Fits item
item-Fits = omega arith

tombstone-Fits : Fits tombstone
tombstone-Fits = omega arith

abbrev page : Memory
page = init blank

one_item :
    (m : Memory) × (write_record 1 page item ≡ (m, write_reply 1 [] item))
    × Holds m (written 1 [] item)
one_item = write_record-refines 1 page [] item (init-Holds blank) item-Fits

written_item : written 1 [] item ≡ item ∷ []
unfolding written
written_item = refl

one_item-Holds : Holds one_item.0 (item ∷ [])
one_item-Holds = subst (Holds one_item.0) written_item one_item.2

write_record-refines_example :
    (m : Memory) × (write_record 1 page item ≡ (m, write_reply 1 [] item))
    × Holds m (written 1 [] item)
write_record-refines_example = write_record-refines 1 page [] item (init-Holds blank) item-Fits

write_item_ok : (write_record 1 page item).1 ≡ ok tt
unfolding write_reply
write_item_ok = reply-write_record 1 100 page [] item (init-Holds blank) item-Fits

seen : visible [] 5 item ≡ true
unfolding visible
seen = refl

read-write_self_example :
    read 100 (write_record 1 page item).0 [] 5 (97 ∷ []) ≡ value_reply 100 item
read-write_self_example =
    read-write_self 1 100 page [] item [] 5 (init-Holds blank) item-Fits seen write_item_ok

item_room : has_room [] item ≡ true
unfolding has_room
item_room = refl

other_key : bytes_eq item.key (98 ∷ []) && visible [] 5 item ≡ false
unfolding visible bytes_eq
other_key = refl

read-write_other_test :
    read 100 (write_record 1 page item).0 [] 5 (98 ∷ []) ≡ read 100 page [] 5 (98 ∷ [])
read-write_other_test =
    read-write_other 1 100 page [] item [] 5 (98 ∷ []) (init-Holds blank) item-Fits item_room
      other_key

read-eq-read_spec_test :
    read 100 one_item.0 [] 5 (97 ∷ []) ≡ read_spec 100 [] 5 (97 ∷ []) (item ∷ [])
read-eq-read_spec_test = read-eq-read_spec 100 [] 5 (97 ∷ []) one_item.0 (item ∷ []) one_item-Holds

scan-read_example :
    (latest : Latest) × (scan_latest 100 one_item.0 [] 5 (97 ∷ []) ≡ some latest)
    × ((k : List ℕ)
        → scanned k latest
          ≡ (if has_prefix k (97 ∷ []) then found (read 100 one_item.0 [] 5 k) else none))
scan-read_example = scan-read 100 [] 5 (97 ∷ []) one_item.0 (item ∷ []) one_item-Holds

compact_page-Holds_test :
    (m : Memory) × (compact_page 100 one_item.0 ≡ some m) × Holds m (survivors 100 (item ∷ []))
compact_page-Holds_test = compact_page-Holds 100 one_item.0 (item ∷ []) one_item-Holds

abbrev two_requests : List Request
two_requests = record { clock = 1; item = item } ∷ record { clock = 2; item = tombstone } ∷ []

run-IsWellFormed_example :
    (ss : List Record) × Holds (run (init blank) two_requests) ss
    × ((now : ℕ) (active : ActiveTxns) (reader : ℕ) (key : List ℕ)
        → read now (run (init blank) two_requests) active reader key ≢ panic)
run-IsWellFormed_example = run-IsWellFormed blank two_requests (item-Fits, (tombstone-Fits, tt))

two_items :
    (m : Memory) × (write_record 2 one_item.0 tombstone ≡ (m, write_reply 2 (item ∷ []) tombstone))
    × Holds m (written 2 (item ∷ []) tombstone)
two_items = write_record-refines 2 one_item.0 (item ∷ []) tombstone one_item-Holds tombstone-Fits

written-tombstone : written 2 (item ∷ []) tombstone ≡ item ∷ tombstone ∷ []
unfolding written
written-tombstone = refl

two_items-Holds : Holds two_items.0 (item ∷ tombstone ∷ [])
two_items-Holds = subst (Holds two_items.0) written-tombstone two_items.2

tombstone_dead : not_expired 50 100 ≡ false
unfolding not_expired
tombstone_dead = refl

tombstone_seen : visible [] 5 tombstone ≡ true
unfolding visible
tombstone_seen = refl

compaction_forgets_deletion_example :
    (read 100 two_items.0 [] 5 (97 ∷ []) ≡ err key_not_found)
    × ((m : Memory) × (compact_page 100 two_items.0 ≡ some m) × Holds m (survivors 100 (item ∷ [])))
compaction_forgets_deletion_example =
    compaction_forgets_deletion 100 two_items.0 (item ∷ []) tombstone [] 5 two_items-Holds
      tombstone_dead tombstone_seen

-- The deleted value comes back.
resurrected : survivors 100 (item ∷ tombstone ∷ []) ≡ item ∷ []
unfolding survivors visit_all lookup insert bytes_eq
resurrected = refl

-- A page with two keys, whose records are packed in the other order.
abbrev other : Record
other = record { txn_id = 4; expires_at = 900; key = 98 ∷ []; value = 121 ∷ 122 ∷ [] }

other-Fits : Fits other
other-Fits = omega arith

two_keys :
    (m : Memory) × (write_record 2 one_item.0 other ≡ (m, write_reply 2 (item ∷ []) other))
    × Holds m (written 2 (item ∷ []) other)
two_keys = write_record-refines 2 one_item.0 (item ∷ []) other one_item-Holds other-Fits

written-other : written 2 (item ∷ []) other ≡ item ∷ other ∷ []
unfolding written
written-other = refl

two_keys-Holds : Holds two_keys.0 (item ∷ other ∷ [])
two_keys-Holds = subst (Holds two_keys.0) written-other two_keys.2

abbrev swapped : LatestRecords
swapped = (98 ∷ [], other) ∷ (97 ∷ [], item) ∷ []

swapped_order : Permᴰ (latest_of 100 (item ∷ other ∷ [])) swapped
unfolding visit_all compact_body lookup insert bytes_eq
swapped_order = Permᴰ.swap refl refl

read-repack_example :
    (m' : Memory) × (compact_page 100 two_keys.0 ≡ some m')
    × ((m'' : Memory) × (repack (init two_keys.0) 0 swapped ≡ some m'')
        × Holds m'' (values swapped)
        × ((now : ℕ) (active : ActiveTxns) (reader : ℕ) (key : List ℕ)
            → read now m'' active reader key ≡ read now m' active reader key))
read-repack_example =
    read-repack 100 two_keys.0 (item ∷ other ∷ []) two_keys-Holds swapped swapped_order
