-- ===== src/BTree.antt =====
-- btree.go: the pages of the B-tree. A page has its header in bytes 0 to 23 and its cells from byte
-- 24 up; a leaf's cell is two lengths, a key and a value, an inner cell a length, a child and a
-- key. Offsets stay below 2 ^ 18, so no uint32 wraps. Latches and MemVersion, which only order
-- concurrent callers, are left out.
pub mod Leaf
pub mod Inner
pub mod Tree
pub mod Cursor
use ultimate_db.Prelude.{
  ℕ, zero, suc, ◌+◌, ◌-◌, ◌%◌, ◌^◌, Bool, true, false, ◌&&◌, Option, none, some, List, ltb, leb,
  nat_eq, if◌then◌else◌,
}
use ultimate_db.Memory.{Memory, get_word, put_word, read_bytes}
use ultimate_db.Page.{page_size}

abbrev pub btree_header_size : ℕ
btree_header_size = 24

abbrev pub page_type_internal : ℕ
page_type_internal = 1

abbrev pub page_type_leaf : ℕ
page_type_leaf = 2

-- A slice of the page set to zeros, and Go's `copy` within the page, whose parts may overlap.
unfoldable pub zero_fill : Memory → ℕ → ℕ → Memory
zero_fill m from to i = if leb from i && ltb i to then 0 else m i

unfoldable pub copy_within : Memory → ℕ → ℕ → ℕ → Memory
copy_within m to from n i = if leb to i && ltb i (to + n) then m (from + (i - to)) else m i

unfoldable pub btree_init : Memory → Memory
unfolding zero_fill
btree_init m = zero_fill m 0 btree_header_size

unfoldable pub page_type : Memory → ℕ
page_type m = get_word 2 m 0

unfoldable pub set_page_type : Memory → ℕ → Memory
set_page_type m t = put_word 2 m 0 t

unfoldable pub num_cells : Memory → ℕ
num_cells m = get_word 2 m 2

unfoldable pub set_num_cells : Memory → ℕ → Memory
set_num_cells m n = put_word 2 m 2 (n % 2 ^ 16)

unfoldable pub next_leaf_id : Memory → ℕ
next_leaf_id m = get_word 8 m 4

unfoldable pub set_next_leaf_id : Memory → ℕ → Memory
set_next_leaf_id m id = put_word 8 m 4 id

unfoldable pub parent_id : Memory → ℕ
parent_id m = get_word 8 m 12

unfoldable pub set_parent_id : Memory → ℕ → Memory
set_parent_id m id = put_word 8 m 12 id

unfoldable pub rightmost_child_id : Memory → ℕ
rightmost_child_id m = get_word 4 m 20

-- A page id of more than 32 bits is cut.
unfoldable pub set_rightmost_child_id : Memory → ℕ → Memory
set_rightmost_child_id m id = put_word 4 m 20 (id % 2 ^ 32)

pub record Cell : Type 0 where
  pub key : List ℕ
  pub value : List ℕ

abbrev pub key_length : Memory → ℕ → ℕ
key_length m off = get_word 2 m off

abbrev pub value_length : Memory → ℕ → ℕ
value_length m off = get_word 2 m (off + 2)

abbrev pub cell_bytes : Memory → ℕ → ℕ
cell_bytes m off = 4 + key_length m off + value_length m off

-- The cell at an offset; `none` where a loop's guards find that it does not end on the page.
unfoldable pub leaf_cell : Memory → ℕ → Option Cell
leaf_cell m off =
    if ltb page_size (off + 4)
    then none
    else if ltb page_size (off + cell_bytes m off)
    then none
    else some (record {
      key = read_bytes m (off + 4) (key_length m off);
      value = read_bytes m (off + 4 + key_length m off) (value_length m off);
    })

-- The end of the first `n` cells, or `none` if one of them does not end on the page: the two loops
-- of IsSafeForInsert.
unfoldable pub leaf_end : Memory → ℕ → ℕ → Option ℕ
leaf_end m zero off = some off
leaf_end m (suc n) off =
    let rest = leaf_end m n (off + cell_bytes m off) in
    if ltb page_size (off + 4)
    then none
    else if ltb page_size (off + cell_bytes m off)
    then none
    else rest

abbrev pub inner_cell_bytes : Memory → ℕ → ℕ
inner_cell_bytes m off = 10 + key_length m off

unfoldable pub inner_end : Memory → ℕ → ℕ → Option ℕ
inner_end m zero off = some off
inner_end m (suc n) off =
    let rest = inner_end m n (off + inner_cell_bytes m off) in
    if ltb page_size (off + 10)
    then none
    else if ltb page_size (off + inner_cell_bytes m off)
    then none
    else rest

abbrev pub cells_end : Memory → Option ℕ
cells_end m =
    if nat_eq (page_type m) page_type_leaf
    then leaf_end m (num_cells m) btree_header_size
    else inner_end m (num_cells m) btree_header_size

unfoldable pub is_safe_for_insert : Memory → ℕ → Bool
unfolding page_type num_cells leaf_end inner_end
is_safe_for_insert m required = elim (cells_end m) [
  | none ↦ false
  | some off ↦ ltb (off + required) page_size
]
