-- ===== src/BTree/Inner/Place.antt =====
-- An entry that is written to an inner page.
use ultimate_db.Prelude.{ℕ, ◌+◌, ◌≤◌, ◌<◌, ◌%◌, ◌^◌, ◌≡◌, ◌∙◌, List, length, arith, ◌⊎◌, inl}
use ultimate_db.Memory.{
  Memory, put_word, get-put_self, put_word-outside, get-write_outside, get-put_outside,
  read-write_self, write_bytes-outside,
}
use ultimate_db.BTree.{rightmost_child_id, set_rightmost_child_id}
use ultimate_db.BTree.Inner.{put_entry}
use ultimate_db.BTree.Inner.Entries.{EntryAt}

module _ (m : Memory) (off : ℕ) (key : List ℕ) (child : ℕ) where
  abbrev sized : Memory
  sized = put_word 2 m off (length key % 2 ^ 16)

  abbrev linked : Memory
  linked = put_word 8 sized (off + 2) child

  pub put_entry-EntryAt :
      length key < 2 ^ 16
      → child < 2 ^ 64
      → EntryAt (put_entry m off key child) off (record { child = child; key = key })
  unfolding put_entry
  put_entry-EntryAt lt lt' = record {
    key_size =
        get-write_outside 2 linked (off + 10) key off (inl (omega arith))
        ∙ get-put_outside 2 sized (off + 2) 8 child off (inl (omega arith))
        ∙ get-put_self 2 m off (length key % 2 ^ 16) (omega arith)
        ∙ omega arith;
    child_word =
        get-write_outside 8 linked (off + 10) key (off + 2) (inl (omega arith))
        ∙ get-put_self 8 sized (off + 2) child (omega arith);
    key_bytes = read-write_self linked (off + 10) key;
  }

  pub put_entry-outside :
      (i : ℕ) → (i < off) ⊎ (off + (10 + length key) ≤ i) → put_entry m off key child i ≡ m i
  unfolding put_entry
  put_entry-outside i h =
      write_bytes-outside linked (off + 10) key i (omega arith)
      ∙ put_word-outside 8 sized (off + 2) child i (omega arith)
      ∙ put_word-outside 2 m off (length key % 2 ^ 16) i (omega arith)

pub rightmost-set :
    (m : Memory) (id : ℕ) → id < 2 ^ 32 → rightmost_child_id (set_rightmost_child_id m id) ≡ id
unfolding rightmost_child_id set_rightmost_child_id
rightmost-set m id lt = get-put_self 4 m 20 (id % 2 ^ 32) (omega arith) ∙ omega arith

pub set_rightmost-outside :
    (m : Memory) (id i : ℕ) → (i < 20) ⊎ (24 ≤ i) → set_rightmost_child_id m id i ≡ m i
unfolding set_rightmost_child_id
set_rightmost-outside m id i h = put_word-outside 4 m 20 (id % 2 ^ 32) i (omega arith)
