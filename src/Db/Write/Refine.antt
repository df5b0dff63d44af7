-- ===== src/Db/Write/Refine.antt =====
-- `Write` on the bytes of a page does what the specification says of its records.
use ultimate_db.Prelude.{
  ℕ, ◌+◌, ◌*◌, ◌≤◌, ◌≡◌, ap, true, false, some, List, [], ◌∷◌, ◌++◌, if◌then◌else◌, length, arith,
  Bool-cases, inl, inr, length-append, leb→le,
}
use ultimate_db.Memory.{Memory}
use ultimate_db.Page.{u32, is_safe_for_insert, get_slot_count, set_slot_count, get_upper_boundary}
use ultimate_db.Page.Record.{Record, record_size, Fits}
use ultimate_db.Page.Place.{place_record}
use ultimate_db.Page.Contents.{Holds, place_record-Packed}
use ultimate_db.Page.Count.{set_slot_count-Holds}
use ultimate_db.Db.{ok, err, page_overflow}
use ultimate_db.Db.Compact.Rebuild.{compact_page-Holds}
use ultimate_db.Db.Write.{
  heal, insert_record, make_room, write_record, has_room, kept, written, write_reply,
}

module _ (m : Memory) (rs : List Record) (r : Record) (h : Holds m rs) (f : Fits r) where
  -- The test of the code on the boundaries is the test on the sizes.
  pub safe-has_room : is_safe_for_insert m (u32 (record_size r)) ≡ has_room rs r
  unfolding is_safe_for_insert has_room
  safe-has_room = ground (arith, h.packed.lower, h.packed.upper, h.packed.room, f.size)

  pub heal-Holds : heal m ≡ m
  unfolding heal
  heal-Holds = ground (arith, h.packed.upper, h.packed.room)

  pub full_page : has_room rs r ≡ false → insert_record m r ≡ (m, err page_overflow)
  unfolding insert_record
  full_page full = rw (safe-has_room, full)

  pub room_left :
      has_room rs r ≡ true → 32 + 4 * length rs + 4 + record_size r ≤ get_upper_boundary m
  unfolding has_room
  room_left room = omega (arith, leb→le _ _ room, h.packed.upper)

  pub insert_steps :
      (m' : Memory)
      → has_room rs r ≡ true
      → place_record m (length rs) r ≡ some m'
      → insert_record m r ≡ (set_slot_count m' (u32 (get_slot_count m + 1)), ok tt)
  unfolding insert_record
  insert_steps m' room placed = ground (
    arith,
    safe-has_room,
    room,
    room_left room,
    h.count,
    h.packed.upper,
    h.packed.lower,
    ap (λ n. place_record m n r) h.count,
    placed,
  )

  insert_record-Holds :
      (m' : Memory) × (insert_record m r ≡ (m', if has_room rs r then ok tt else err page_overflow))
      × Holds m' (if has_room rs r then rs ++ r ∷ [] else rs)
  insert_record-Holds = elim (Bool-cases (has_room rs r)) [
    | inl room ↦ rw room (room_page room)
    | inr full ↦ rw full (m, full_page full, h)
  ]
    where
      room_page :
          has_room rs r ≡ true
          → (m' : Memory) × (insert_record m r ≡ (m', ok tt)) × Holds m' (rs ++ r ∷ [])
      room_page room =
          let (m', placed, p', _, _) = place_record-Packed m rs r h.packed f (room_left room) in
          (
            set_slot_count m' (u32 (get_slot_count m + 1)),
            insert_steps m' room placed,
            set_slot_count-Holds m' (u32 (get_slot_count m + 1)) (rs ++ r ∷ []) p'
                (omega (arith, h.count, length-append rs (r ∷ []), h.packed.room, h.packed.upper)),
          )

  pub make_room-Holds :
      (now : ℕ)
      → (m' : Memory) × (make_room now m (u32 (record_size r)) ≡ some m') × Holds m' (kept now rs r)
  unfolding make_room kept
  make_room-Holds now = elim (Bool-cases (has_room rs r)) [
    | inl room ↦ (m, rw (safe-has_room, room), rw room h)
    | inr full ↦
        let (m', e, h') = compact_page-Holds now m rs h in
        (m', rw (safe-has_room, full) e, rw full h')
  ]

-- `Write` on a well-formed page never panics. Its page and its reply are those of the
-- specification: the record is appended, after a compaction where it has no room, or the page is
-- only compacted and the reply is the overflow error.
pub write_record-refines :
    (now : ℕ) (m : Memory) (rs : List Record) (r : Record)
    → Holds m rs
    → Fits r
    → (m' : Memory) × (write_record now m r ≡ (m', write_reply now rs r))
      × Holds m' (written now rs r)
unfolding write_record written write_reply
write_record-refines now m rs r h f =
    let (m₁, made, h₁) = make_room-Holds m rs r h f now in
    let (m₂, e, h₂) = insert_record-Holds m₁ (kept now rs r) r h₁ f in
    (m₂, ground (arith, heal-Holds m rs r h f, made, e), h₂)
