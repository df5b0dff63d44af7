-- ===== src/BTree/Cursor.antt =====
-- btree.go's walks along the leaves: BTreeCursor, SortMergeJoin and Scan. A page that is fetched is
-- always there; a walk down or along that exceeds its fuel is a value of the result.
pub mod Chain
pub mod Join
pub mod Scan
use ultimate_db.Prelude.{
  ℕ, zero, suc, ◌+◌, ◌%◌, ◌^◌, Bool, true, false, Option, none, some, List, [], ◌∷◌, ◌++◌, ltb,
  nat_eq, if◌then◌else◌, bytes_eq,
}
use ultimate_db.Bytes.{bytes_lt, has_prefix}
use ultimate_db.Memory.{Memory, get_word, read_bytes}
use ultimate_db.Page.{page_size}
use ultimate_db.BTree.{
  Cell, key_length, value_length, cell_bytes, leaf_cell, num_cells, btree_header_size, page_type,
  page_type_leaf, next_leaf_id,
}
use ultimate_db.BTree.Tree.{Tree, find_leaf}

-- `node` is `none` where the source has nil.
pub record Cursor : Type 0 where
  pub node : Option ℕ
  pub cell_idx : ℕ
  pub offset : ℕ
  pub is_eof : Bool

pub data Opening : Type 0 where
  opened : Cursor → Opening
  corrupt_inner : Opening
  endless : Opening

-- NewBTreeCursor: down the first children.
unfoldable pub new_cursor : ℕ → Tree → ℕ → Opening
unfolding page_type num_cells
new_cursor zero t id = endless
new_cursor (suc fuel) t id =
    let next = new_cursor fuel t (get_word 8 (t.pages id) (btree_header_size + 2)) in
    if nat_eq (page_type (t.pages id)) page_type_leaf
    then opened (record {
      node = some id;
      cell_idx = 0;
      offset = btree_header_size;
      is_eof = nat_eq (num_cells (t.pages id)) 0;
    })
    else if nat_eq (num_cells (t.pages id)) 0
    then corrupt_inner
    else next

-- `nil_node` is the panic of a cursor without a page that is not at the end.
pub data Yield : Type 0 where
  entry : Cell → Yield
  end_of_file out_of_bounds corrupt_cell nil_node : Yield

abbrev pub cell_here : Memory → ℕ → Cell
cell_here m off = record {
  key = read_bytes m (off + 4) (key_length m off);
  value = read_bytes m (off + 4 + key_length m off) (value_length m off);
}

-- Behind the last cell of a leaf the cursor goes to the next leaf, whatever that holds.
unfoldable pub advance : Tree → ℕ → Cursor → Cursor
unfolding num_cells next_leaf_id
advance t id c =
    let idx = (c.cell_idx + 1) % 2 ^ 16 in
    let m = t.pages id in
    let off = c.offset + cell_bytes m c.offset in
    if ltb idx (num_cells m)
    then record { node = some id; cell_idx = idx; offset = off; is_eof = false }
    else if nat_eq (next_leaf_id m) 0
    then record { node = none; cell_idx = idx; offset = off; is_eof = true }
    else record {
      node = some (next_leaf_id m);
      cell_idx = 0;
      offset = btree_header_size;
      is_eof = false;
    }

unfoldable pub cursor_next : Tree → Cursor → Cursor × Yield
unfolding advance
cursor_next t c = if c.is_eof then (c, end_of_file) else elim c.node [
  | none ↦ (c, nil_node)
  | some id ↦
      if ltb page_size (c.offset + 4)
      then (c, out_of_bounds)
      else if ltb page_size (c.offset + cell_bytes (t.pages id) c.offset)
      then (c, corrupt_cell)
      else (advance t id c, entry (cell_here (t.pages id) c.offset))
]

pub record JoinResult : Type 0 where
  pub join_key : List ℕ
  pub left_value : List ℕ
  pub right_value : List ℕ

-- The results, or the error of one of the cursors; `none` is a run longer than the fuel.
pub data Joined : Type 0 where
  results : List JoinResult → Joined
  failed : Yield → Joined

abbrev pub joined_more : JoinResult → Option Joined → Option Joined
joined_more r (some (results rs)) = some (results (r ∷ rs))
joined_more r other = other

abbrev pub is_failure : Yield → Bool
is_failure (entry c) = false
is_failure end_of_file = false
is_failure y = true

abbrev pub join_end : Yield → Yield → Joined
join_end l r = if is_failure l then failed l else if is_failure r then failed r else results []

-- The loop of SortMergeJoin, from what the two cursors yielded last.
unfoldable pub join_loop : ℕ → Tree → Tree → Cursor × Yield → Cursor × Yield → Option Joined
unfolding cursor_next
join_loop zero tl tr l r = none
join_loop (suc fuel) tl tr (cl, entry a) (cr, entry b) =
    let both = join_loop fuel tl tr (cursor_next tl cl) (cursor_next tr cr) in
    let left = join_loop fuel tl tr (cursor_next tl cl) (cr, entry b) in
    let right = join_loop fuel tl tr (cl, entry a) (cursor_next tr cr) in
    if bytes_eq a.key b.key
    then joined_more (record { join_key = a.key; left_value = a.value; right_value = b.value }) both
    else if bytes_lt a.key b.key
    then left
    else right
join_loop (suc fuel) tl tr (cl, yl) (cr, yr) = some (join_end yl yr)

-- `none` is an error of NewBTreeCursor or a run longer than the fuel.
unfoldable pub sort_merge_join : ℕ → Tree → Tree → Option Joined
unfolding new_cursor join_loop cursor_next
sort_merge_join fuel tl tr = elim (new_cursor fuel tl tl.root) [
  | opened cl ↦ elim (new_cursor fuel tr tr.root) [
    | opened cr ↦ join_loop fuel tl tr (cursor_next tl cl) (cursor_next tr cr)
    | corrupt_inner ↦ none
    | endless ↦ none
  ]
  | corrupt_inner ↦ none
  | endless ↦ none
]

-- The cells of a leaf with the prefix, in its order.
unfoldable pub scan_cells : Memory → List ℕ → ℕ → ℕ → List Cell
unfolding leaf_cell has_prefix
scan_cells m prefix zero off = []
scan_cells m prefix (suc n) off =
    let rest = scan_cells m prefix n (off + cell_bytes m off) in
    elim (leaf_cell m off) [
      | none ↦ []
      | some c ↦ if has_prefix c.key prefix then c ∷ rest else rest
    ]

-- Scan's loop from a leaf on: the matching cells of the leaf are appended to those collected, and
-- the loop goes on at the next leaf, if there is one. `none` is a walk longer than the fuel.
unfoldable pub scan_loop : ℕ → Tree → List ℕ → ℕ → List Cell → Option (List Cell)
unfolding scan_cells num_cells next_leaf_id
scan_loop zero t prefix id acc = none
scan_loop (suc fuel) t prefix id acc =
    let m = t.pages id in
    let acc' = acc ++ scan_cells m prefix (num_cells m) btree_header_size in
    let rest = scan_loop fuel t prefix (next_leaf_id m) acc' in
    if nat_eq (next_leaf_id m) 0 then some acc' else rest

-- `rounds` bounds the leaves that are visited, `fuel` the walk down to the first.
unfoldable pub scan_prefix : ℕ → ℕ → Tree → List ℕ → Option (List Cell)
unfolding find_leaf scan_loop
scan_prefix rounds fuel t prefix = elim (find_leaf fuel t t.root prefix) [
  | none ↦ none
  | some id ↦ scan_loop rounds t prefix id []
]
