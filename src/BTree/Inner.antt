-- ===== src/BTree/Inner.antt =====
-- The operations on one inner page: btree.go's findChildInInternalNode and insertIntoInternal.
pub mod Entries
pub mod Place
pub mod Insert
pub mod Spliced
pub mod Grow
use ultimate_db.Prelude.{
  ℕ, zero, suc, ◌+◌, ◌-◌, ◌%◌, ◌^◌, Bool, true, false, not, Option, none, some, List, length, ltb,
  leb, if◌then◌else◌,
}
use ultimate_db.Bytes.{bytes_lt}
use ultimate_db.Memory.{Memory, get_word, put_word, read_bytes, write_bytes}
use ultimate_db.Page.{page_size}
use ultimate_db.BTree.{
  key_length, inner_cell_bytes, num_cells, set_num_cells, btree_header_size, is_safe_for_insert,
  copy_within, rightmost_child_id, set_rightmost_child_id,
}

-- The keys below `key` are found under `child`, but for those of the cells before.
pub record Entry : Type 0 where
  pub child : ℕ
  pub key : List ℕ

unfoldable pub inner_cell : Memory → ℕ → Option Entry
inner_cell m off =
    if ltb page_size (off + 10)
    then none
    else if ltb page_size (off + inner_cell_bytes m off)
    then none
    else some (record {
      child = get_word 8 m (off + 2);
      key = read_bytes m (off + 10) (key_length m off);
    })

-- The child of the first cell with a greater key.
unfoldable pub child_before : Memory → List ℕ → ℕ → ℕ → Option ℕ
unfolding inner_cell
child_before m key zero off = none
child_before m key (suc n) off =
    let rest = child_before m key n (off + inner_cell_bytes m off) in
    elim (inner_cell m off) [
      | none ↦ none
      | some e ↦ if bytes_lt key e.key then some e.child else rest
    ]

unfoldable pub find_child_in_internal_node : Memory → List ℕ → ℕ
unfolding child_before num_cells rightmost_child_id
find_child_in_internal_node m key = elim (child_before m key (num_cells m) btree_header_size) [
  | none ↦ rightmost_child_id m
  | some id ↦ id
]

-- The offset of the first cell with a greater key, and the end of the cells.
unfoldable pub pivot_offset : Memory → List ℕ → ℕ → ℕ → Option ℕ × ℕ
unfolding inner_cell
pivot_offset m key zero off = (none, off)
pivot_offset m key (suc n) off =
    let rest = pivot_offset m key n (off + inner_cell_bytes m off) in
    elim (inner_cell m off) [
      | none ↦ (none, off)
      | some e ↦ if bytes_lt key e.key then (some off, rest.1) else rest
    ]

unfoldable pub put_entry : Memory → ℕ → List ℕ → ℕ → Memory
put_entry m off key child =
    let m = put_word 2 m off (length key % 2 ^ 16) in
    let m = put_word 8 m (off + 2) child in write_bytes m (off + 10) key

abbrev pub entry_bytes : List ℕ → ℕ
entry_bytes key = 10 + length key

-- The cells behind the place slide up, and the first of them gets the right child; without one the
-- right child becomes the rightmost.
unfoldable pub make_place : Memory → ℕ → ℕ → Option ℕ × ℕ → Memory
unfolding set_rightmost_child_id copy_within
make_place m bytes right (none, end) = set_rightmost_child_id m right
make_place m bytes right (some at, end) =
    if leb (end + bytes) page_size
    then put_word 8 (copy_within m (at + bytes) at (end - at)) (at + bytes + 2) right
    else m

abbrev pub place_of : Option ℕ × ℕ → ℕ
place_of (none, end) = end
place_of (some at, end) = at

-- False is ErrPageFull.
unfoldable pub insert_into_internal : Memory → List ℕ → ℕ → ℕ → Memory × Bool
unfolding pivot_offset make_place put_entry is_safe_for_insert num_cells set_num_cells
insert_into_internal m pivot left right =
    let places = pivot_offset m pivot (num_cells m) btree_header_size in
    let m' = make_place m (entry_bytes pivot) right places in
    if not (is_safe_for_insert m (entry_bytes pivot))
    then (m, false)
    else if leb (place_of places + entry_bytes pivot) page_size
    then (set_num_cells (put_entry m' (place_of places) pivot left) (num_cells m + 1), true)
    else (m', true)
