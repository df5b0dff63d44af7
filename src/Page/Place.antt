-- ===== src/Page/Place.antt =====
-- Placing a record: the steps that `Write`, `restoreWrite` and `compactPage` of db.go share.
use ultimate_db.Prelude.{
  ℕ, ◌+◌, ◌-◌, ◌*◌, ◌%◌, ◌^◌, ◌≤◌, ◌<◌, ◌≡◌, ◌∙◌, sym, ◌⊎◌, Option, none, some, ◌&&◌, leb,
  if◌then◌else◌, arith,
}
use ultimate_db.Memory.{
  Memory, get_word, put_word, get-put_self, get-put_outside, put_word-outside, get_word-ext,
}
use ultimate_db.Page.{
  u32, page_size, page_header_size, get_lower_boundary, get_upper_boundary, set_lower_boundary,
  set_upper_boundary, get_slot_count, write_slot,
}
use ultimate_db.Page.Record.{
  Record, RecordAt, RecordAt-ext, Fits, record_size, put_record, put_record-RecordAt,
  put_record-outside,
}

-- The record, its slot, and the two boundaries moved inward.
pub placed : Memory → ℕ → ℕ → Record → Memory
placed m at slot r =
    let m = put_record m at r in
    let m = write_slot m slot (record { offset = at % 2 ^ 16; length = record_size r % 2 ^ 16 }) in
    let m = set_lower_boundary m (u32 (page_header_size + u32 (u32 (slot + 1) * 4))) in
    set_upper_boundary m at

-- `none` is Go's panic on a slice out of range. The offset wraps as uint32 does.
unfoldable pub place_record : Memory → ℕ → Record → Option Memory
place_record m slot r =
    let upper = get_upper_boundary m in
    let at = u32 (upper + 2 ^ 32 - u32 (record_size r)) in
    if leb at upper && leb upper page_size && leb (page_header_size + slot * 4 + 4) page_size
    then some (placed m at slot r)
    else none

get-put_at :
    (w : ℕ) (m : Memory) (off v i : ℕ)
    → i ≡ off
    → v < 256 ^ w
    → get_word w (put_word w m off v) i ≡ v
get-put_at w m off v i e h = rw e (get-put_self w m off v h)

module _ (m : Memory) (at slot : ℕ) (r : Record) (low : slot < 8192) where
  -- Nothing changes outside the two boundaries, the new slot and the record.
  pub placed-outside :
      (i : ℕ)
      → (i < 12) ⊎ (20 ≤ i)
      → (i < 32 + 4 * slot) ⊎ (36 + 4 * slot ≤ i)
      → (i < at) ⊎ (at + record_size r ≤ i)
      → placed m at slot r i ≡ m i
  unfolding placed write_slot set_lower_boundary set_upper_boundary
  placed-outside i h k l =
      put_word-outside 4 _ 16 _ i (omega arith)
      ∙ put_word-outside 4 _ 12 _ i (omega arith)
      ∙ put_word-outside 2 _ _ _ i (omega arith)
      ∙ put_word-outside 2 _ _ _ i (omega arith)
      ∙ put_record-outside m at r i (omega arith)

  pub count-placed : 12 ≤ at → get_slot_count (placed m at slot r) ≡ get_slot_count m
  unfolding get_slot_count
  count-placed h =
      get_word-ext 4 8 (λ i a b. placed-outside i (omega arith) (omega arith) (omega arith))

  pub upper-placed : at < 2 ^ 32 → get_upper_boundary (placed m at slot r) ≡ at
  unfolding placed get_upper_boundary set_upper_boundary
  upper-placed h = get-put_self 4 _ 16 at (omega arith)

  pub lower-placed : get_lower_boundary (placed m at slot r) ≡ 32 + 4 * (slot + 1)
  unfolding placed get_lower_boundary set_lower_boundary set_upper_boundary
  lower-placed =
      get-put_outside 4 _ 16 4 _ 12 (omega arith)
      ∙ get-put_self 4 _ 12 _ (omega arith)
      ∙ omega arith

  pub offset-placed : at < 2 ^ 16 → get_word 2 (placed m at slot r) (32 + 4 * slot) ≡ at
  unfolding placed write_slot set_lower_boundary set_upper_boundary
  offset-placed h =
      get-put_outside 2 _ 16 4 _ _ (omega arith)
      ∙ get-put_outside 2 _ 12 4 _ _ (omega arith)
      ∙ get-put_outside 2 _ _ 2 _ _ (omega arith)
      ∙ get-put_at 2 _ _ _ _ (omega arith) (omega arith)
      ∙ omega arith

  pub length-placed :
      record_size r < 2 ^ 16 → get_word 2 (placed m at slot r) (32 + 4 * slot + 2) ≡ record_size r
  unfolding placed write_slot set_lower_boundary set_upper_boundary
  length-placed h =
      get-put_outside 2 _ 16 4 _ _ (omega arith)
      ∙ get-put_outside 2 _ 12 4 _ _ (omega arith)
      ∙ get-put_at 2 _ _ _ _ (omega arith) (omega arith)
      ∙ omega arith

  pub stored-placed : Fits r → 36 + 4 * slot ≤ at → RecordAt (placed m at slot r) at r
  unfolding placed write_slot set_lower_boundary set_upper_boundary
  stored-placed f h =
      RecordAt-ext {m = put_record m at r} at r
        (λ i a b. sym (
          put_word-outside 4 _ 16 _ i (omega arith)
          ∙ put_word-outside 4 _ 12 _ i (omega arith)
          ∙ put_word-outside 2 _ _ _ i (omega arith)
          ∙ put_word-outside 2 _ _ _ i (omega arith)))
        (put_record-RecordAt m at r f)
