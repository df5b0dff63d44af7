-- ===== src/Page/Count.antt =====
-- `SetSlotCount` after the records are placed.
use ultimate_db.Prelude.{ℕ, ◌≤◌, ◌≡◌, ◌∙◌, sym, List, length, arith}
use ultimate_db.Memory.{Memory, get-put_self, get-put_outside, put_word-outside}
use ultimate_db.Page.{set_slot_count, get_slot_count, get_lower_boundary, get_upper_boundary}
use ultimate_db.Page.Record.{Record}
use ultimate_db.Page.Contents.{Holds, Packed, SlotsHold-ext}

module _ (m : Memory) (n : ℕ) (rs : List Record) (p : Packed m rs) where
  lower_kept : get_lower_boundary (set_slot_count m n) ≡ get_lower_boundary m
  unfolding set_slot_count get_lower_boundary
  lower_kept = get-put_outside 4 m 8 4 n 12 (omega arith)

  upper_kept : get_upper_boundary (set_slot_count m n) ≡ get_upper_boundary m
  unfolding set_slot_count get_upper_boundary
  upper_kept = get-put_outside 4 m 8 4 n 16 (omega arith)

  body_kept : (i : ℕ) → 32 ≤ i → m i ≡ set_slot_count m n i
  unfolding set_slot_count
  body_kept i h = sym (put_word-outside 4 m 8 n i (omega arith))

  -- A packed page whose count is set to the number of its records holds them.
  pub set_slot_count-Holds : n ≡ length rs → Holds (set_slot_count m n) rs
  set_slot_count-Holds e = record {
    count = count_set ∙ e;
    packed = record {
      lower = lower_kept ∙ p.lower;
      upper = omega (arith, upper_kept, p.upper);
      room = omega (arith, upper_kept, p.room);
      slots = rw upper_kept (
          SlotsHold-ext (get_upper_boundary m) 0 rs (omega arith)
            (λ i a b. body_kept i (omega arith)) (λ i a b. body_kept i (omega (arith, p.room)))
            p.slots);
    };
  }
    where
      count_set : get_slot_count (set_slot_count m n) ≡ n
      count_set =
          unfold set_slot_count get_slot_count in
          get-put_self 4 m 8 n (omega (arith, p.room, p.upper))
