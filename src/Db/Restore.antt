-- ===== src/Db/Restore.antt =====
-- `restoreWrite` of db.go: recovery's write of a record to a page.
use ultimate_db.Prelude.{
  ℕ, ◌+◌, ◌≡◌, ◌∙◌, ap, sym, true, false, none, some, List, if◌then◌else◌, length, arith,
  Bool-cases, inl, inr, not,
}
use ultimate_db.Memory.{Memory}
use ultimate_db.Page.{u32, is_safe_for_insert, get_slot_count, set_slot_count}
use ultimate_db.Page.Record.{Record, record_size, Fits}
use ultimate_db.Page.Place.{place_record}
use ultimate_db.Page.Contents.{Holds, place_record-Packed}
use ultimate_db.Db.{Result, ok, err, panic, page_overflow}
use ultimate_db.Db.Write.{make_room, write_record, has_room, kept, insert_record}
use ultimate_db.Db.Write.Refine.{
  safe-has_room, full_page, room_left, insert_steps, make_room-Holds, heal-Holds,
}

-- The second half: unlike `Write`'s it does not test the new offset.
unfoldable pub restore_record : Memory → Record → Memory × Result (Unit {0})
restore_record m r =
    let slots = get_slot_count m in
    if not (is_safe_for_insert m (u32 (record_size r)))
    then (m, err page_overflow)
    else elim (place_record m slots r) [
      | none ↦ (m, panic)
      | some m' ↦ (set_slot_count m' (u32 (slots + 1)), ok tt)
    ]

unfoldable pub restore_write : ℕ → Memory → Record → Memory × Result (Unit {0})
unfolding restore_record make_room
restore_write now m r = elim (make_room now m (u32 (record_size r))) [
  | none ↦ (m, panic)
  | some m' ↦ restore_record m' r
]

module _ (m : Memory) (rs : List Record) (r : Record) (h : Holds m rs) (f : Fits r) where
  restore_full : has_room rs r ≡ false → restore_record m r ≡ (m, err page_overflow)
  unfolding restore_record
  restore_full full = rw (safe-has_room m rs r h f, full)

  restore_steps :
      (m' : Memory)
      → has_room rs r ≡ true
      → place_record m (length rs) r ≡ some m'
      → restore_record m r ≡ (set_slot_count m' (u32 (get_slot_count m + 1)), ok tt)
  unfolding restore_record
  restore_steps m' room placed =
      ground (arith, safe-has_room m rs r h f, room, ap (λ n. place_record m n r) h.count, placed)

  restore-insert : restore_record m r ≡ insert_record m r
  restore-insert = elim (Bool-cases (has_room rs r)) [
    | inl room ↦
        let (m', placed, _, _, _) =
          place_record-Packed m rs r h.packed f (room_left m rs r h f room) in
        restore_steps m' room placed ∙ sym (insert_steps m rs r h f m' room placed)
    | inr full ↦ restore_full full ∙ sym (full_page m rs r h f full)
  ]

-- On a page that holds records, recovery's write leaves the page and the reply of `Write`, though
-- it neither formats the page nor tests the new offset.
pub restore_write-write_record :
    (now : ℕ) (m : Memory) (rs : List Record) (r : Record)
    → Holds m rs
    → Fits r
    → restore_write now m r ≡ write_record now m r
unfolding restore_write write_record
restore_write-write_record now m rs r h f =
    let (m₁, made, h₁) = make_room-Holds m rs r h f now in
    ground (arith, made, heal-Holds m rs r h f, restore-insert m₁ (kept now rs r) r h₁ f)
