-- ===== src/BTree/Leaf.antt =====
-- The operations on one leaf: btree.go's insertIntoLeaf and deleteLeafCell, and the loops of
-- kv_store.go's Get and Delete.
pub mod Cells
pub mod Insert
pub mod Sorted
pub mod Place
pub mod Find
pub mod Delete
use ultimate_db.Prelude.{
  ℕ, zero, suc, ◌+◌, ◌-◌, ◌%◌, ◌^◌, Bool, true, false, ◌||◌, not, Option, none, some, List, length,
  ltb, leb, if◌then◌else◌, bytes_eq,
}
use ultimate_db.Bytes.{bytes_lt}
use ultimate_db.Memory.{Memory, put_word, write_bytes}
use ultimate_db.Page.{page_size}
use ultimate_db.BTree.{
  Cell, leaf_cell, cell_bytes, num_cells, set_num_cells, btree_header_size, is_safe_for_insert,
  zero_fill, copy_within,
}

-- The offset of the first cell with the key, and the cell.
unfoldable pub find_cell : Memory → List ℕ → ℕ → ℕ → Option (ℕ × Cell)
unfolding leaf_cell
find_cell m key zero off = none
find_cell m key (suc n) off =
    let rest = find_cell m key n (off + cell_bytes m off) in
    elim (leaf_cell m off) [
      | none ↦ none
      | some c ↦ if bytes_eq key c.key then some (off, c) else rest
    ]

-- The walk of deleteLeafCell to the end of the cells: it does not test where a cell ends.
unfoldable pub tail_offset : Memory → ℕ → ℕ → ℕ
tail_offset m zero off = off
tail_offset m (suc n) off =
    let rest = tail_offset m n (off + cell_bytes m off) in
    if ltb page_size (off + 4) then off else rest

-- The cells behind the cell slide over it; `none` is ErrPageFull.
unfoldable pub delete_leaf_cell : Memory → ℕ → ℕ → Option Memory
unfolding tail_offset num_cells set_num_cells zero_fill copy_within
delete_leaf_cell m off bytes =
    let tail = tail_offset m (num_cells m) btree_header_size in
    if ltb tail (off + bytes) || ltb page_size tail
    then none
    else (let m' = copy_within m off (off + bytes) (tail - bytes - off) in
        let m'' = zero_fill m' (tail - bytes) tail in
        some (set_num_cells m'' (num_cells m + 65535)))

-- The loop of insertIntoLeaf that deletes every cell with the key. Every round but the last
-- deletes a cell, so the number of cells is fuel enough.
unfoldable pub purge : ℕ → Memory → List ℕ → Option Memory
unfolding find_cell delete_leaf_cell num_cells
purge zero m key = some m
purge (suc fuel) m key = elim (find_cell m key (num_cells m) btree_header_size) [
  | none ↦ some m
  | some (off, c) ↦ elim (delete_leaf_cell m off (cell_bytes m off)) [
    | none ↦ none
    | some m' ↦ purge fuel m' key
  ]
]

-- The offset of the first cell with a greater key, if there is one, and the end of the cells.
unfoldable pub insert_offset : Memory → List ℕ → ℕ → ℕ → Option ℕ × ℕ
unfolding leaf_cell
insert_offset m key zero off = (none, off)
insert_offset m key (suc n) off =
    let rest = insert_offset m key n (off + cell_bytes m off) in
    elim (leaf_cell m off) [
      | none ↦ (none, off)
      | some c ↦ if bytes_lt key c.key then (some off, rest.1) else rest
    ]

abbrev pub or_end : Option ℕ × ℕ → ℕ
or_end (none, end) = end
or_end (some off, end) = off

unfoldable pub put_cell : Memory → ℕ → List ℕ → List ℕ → Memory
put_cell m off key val =
    let m = put_word 2 m off (length key % 2 ^ 16) in
    let m = put_word 2 m (off + 2) (length val % 2 ^ 16) in
    let m = write_bytes m (off + 4) key in write_bytes m (off + 4 + length key) val

abbrev pub required : List ℕ → List ℕ → ℕ
required key val = 4 + length key + length val

-- The second half of insertIntoLeaf: the cells behind the place slide up.
unfoldable pub place_cell : Memory → List ℕ → List ℕ → Option Memory
unfolding insert_offset put_cell copy_within set_num_cells num_cells
place_cell m key val =
    let places = insert_offset m key (num_cells m) btree_header_size in
    let at = or_end places in
    if ltb page_size (at + required key val)
    then none
    else (let m' =
          if ltb at places.1 then copy_within m (at + required key val) at (places.1 - at) else m in
        some (set_num_cells (put_cell m' at key val) (num_cells m + 1)))

-- The page is returned with the reply: a cell with the key is deleted even if the new one has no
-- room. False is ErrPageFull.
unfoldable pub insert_into_leaf : Memory → List ℕ → List ℕ → Memory × Bool
unfolding purge is_safe_for_insert place_cell
insert_into_leaf m key val = elim (purge (suc (num_cells m)) m key) [
  | none ↦ (m, false)
  | some m' ↦
      if not (is_safe_for_insert m' (required key val))
      then (m', false)
      else elim (place_cell m' key val) [ none ↦ (m', false) | some m'' ↦ (m'', true) ]
]
