-- ===== src/Kv.antt =====
-- kv_store.go: the key-value store on a B-tree. Get, Put and Delete on the tree, the iterator over
-- the keys with a prefix, and what opening a store does to its root page. What opening recovers
-- from a page of another layout is in Recovered.
pub mod Delete
pub mod Laws
pub mod Lost
pub mod Reset
pub mod Iterator
pub mod Kept
pub mod Recovered
pub mod Bounded
use ultimate_db.Prelude.{
  ℕ, zero, suc, ◌+◌, ◌-◌, ◌%◌, ◌^◌, Bool, true, false, ◌||◌, ◌&&◌, not, Option, none, some, List,
  [], ◌∷◌, ◌++◌, length, ltb, leb, nat_eq, if◌then◌else◌, bytes_eq,
}
use ultimate_db.Bytes.{bytes_lt, has_prefix}
use ultimate_db.Memory.{Memory}
use ultimate_db.Page.{page_size}
use ultimate_db.BTree.{
  Cell, cell_bytes, leaf_cell, num_cells, set_num_cells, btree_header_size, page_type,
  page_type_leaf, page_type_internal, zero_fill, copy_within, set_page_type, set_next_leaf_id,
  set_parent_id, btree_init,
}
use ultimate_db.BTree.Leaf.{find_cell}
use ultimate_db.BTree.Tree.{Tree, Reply, set_page, find_leaf, tree_insert}
use ultimate_db.BTree.Cursor.{
  Cursor, Yield, entry, end_of_file, cursor_next, Opening, opened, corrupt_inner, endless,
  new_cursor,
}

abbrev pub value_of : Option (ℕ × Cell) → Option (List ℕ)
value_of none = none
value_of (some (off, c)) = some c.value

-- The value, or none for "key not found"; `none` is a walk longer than the fuel.
unfoldable pub kv_get : ℕ → Tree → List ℕ → Option (Option (List ℕ))
unfolding find_leaf find_cell num_cells
kv_get fuel t key = elim (find_leaf fuel t t.root key) [
  | none ↦ none
  | some id ↦
      some (value_of (find_cell (t.pages id) key (num_cells (t.pages id)) btree_header_size))
]

-- Put is the tree's Insert; the flush has no effect on the pages.
unfoldable pub kv_put : ℕ → Tree → List ℕ → List ℕ → Tree × Reply
unfolding tree_insert
kv_put fuel t key val = tree_insert fuel t key val

-- The inner loop of Delete: the end of the cells that end on the page.
unfoldable pub total_size : Memory → ℕ → ℕ → ℕ
unfolding leaf_cell
total_size m zero off = off
total_size m (suc n) off =
    let rest = total_size m n (off + cell_bytes m off) in
    elim (leaf_cell m off) [ none ↦ off | some c ↦ rest ]

pub data Deleted : Type 0 where
  deleted not_found compaction_failed : Deleted

-- The cells behind the first cell with the key slide over it.
unfoldable pub delete_from_leaf : Memory → List ℕ → Memory × Deleted
unfolding find_cell num_cells total_size copy_within zero_fill set_num_cells
delete_from_leaf m key = elim (find_cell m key (num_cells m) btree_header_size) [
  | none ↦ (m, not_found)
  | some (off, c) ↦
      let bytes = cell_bytes m off in
      let total = total_size m (num_cells m) btree_header_size in
      let m' =
        zero_fill (copy_within m off (off + bytes) (total - bytes - off)) (total - bytes) total in
      if leb (off + bytes) total && leb total page_size
      then (set_num_cells m' (num_cells m + 65535), deleted)
      else (m, compaction_failed)
]

unfoldable pub kv_delete : ℕ → Tree → List ℕ → Option (Tree × Deleted)
unfolding find_leaf delete_from_leaf set_page
kv_delete fuel t key = elim (find_leaf fuel t t.root key) [
  | none ↦ none
  | some id ↦ let (m', reply) = delete_from_leaf (t.pages id) key in some (set_page t id m', reply)
]

-- btreeIterator.Next: the next cell with the prefix, up to the first key behind the prefix; `none`
-- is a walk longer than the fuel.
unfoldable pub iterator_next : ℕ → Tree → List ℕ → Cursor → Option (Cursor × Yield)
unfolding cursor_next has_prefix
iterator_next zero t prefix c = none
iterator_next (suc fuel) t prefix c =
    let (c', y) = cursor_next t c in
    let next = iterator_next fuel t prefix c' in
    elim y [
      | entry cell ↦
          if nat_eq (length prefix) 0 || has_prefix cell.key prefix
          then some (c', entry cell)
          else if bytes_lt prefix cell.key
          then some (c', end_of_file)
          else next
      | other ↦ some (c', other)
    ]

-- The loop of purgeEphemeralKVKeys over one prefix: it ends at the first error.
unfoldable pub collect_keys : ℕ → ℕ → Tree → List ℕ → Cursor → List (List ℕ)
unfolding iterator_next
collect_keys zero fuel t prefix c = []
collect_keys (suc rounds) fuel t prefix c = elim (iterator_next fuel t prefix c) [
  | none ↦ []
  | some (c', y) ↦
      let rest = collect_keys rounds fuel t prefix c' in
      elim y [ entry cell ↦ cell.key ∷ rest | _ ↦ [] ]
]

-- NewIterator at the root: one that cannot be opened yields nothing.
unfoldable pub keys_with_prefix : ℕ → Tree → List ℕ → List (List ℕ)
unfolding new_cursor collect_keys
keys_with_prefix fuel t prefix = elim (new_cursor fuel t t.root) [
  | opened c ↦ collect_keys fuel fuel t prefix c
  | corrupt_inner ↦ []
  | endless ↦ []
]

-- The keys that are deleted, one after another, and the number of those that were there.
unfoldable pub delete_keys : ℕ → Tree → List (List ℕ) → Tree × ℕ
unfolding kv_delete
delete_keys fuel t [] = (t, 0)
delete_keys fuel t (key ∷ keys) = elim (kv_delete fuel t key) [
  | none ↦ delete_keys fuel t keys
  | some (t', reply) ↦
      let rest = delete_keys fuel t' keys in
      elim reply [ deleted ↦ (rest.0, suc (rest.1)) | not_found ↦ rest | compaction_failed ↦ rest ]
]

-- The prefixes are "state:grant:", "state:log:", "transaction_ledger:" and "state:pop:".
unfoldable pub purge_ephemeral_kv_keys : ℕ → Tree → List (List ℕ) → Tree × ℕ
unfolding keys_with_prefix delete_keys
purge_ephemeral_kv_keys fuel t prefixes = delete_keys fuel t (all_keys prefixes)
  where
    all_keys : List (List ℕ) → List (List ℕ)
    all_keys [] = []
    all_keys (p ∷ ps) = keys_with_prefix fuel t p ++ all_keys ps

unfoldable pub btree_page_needs_reset : Memory → Bool
unfolding page_type num_cells
btree_page_needs_reset m =
    (not (nat_eq (page_type m) page_type_leaf) && not (nat_eq (page_type m) page_type_internal))
    || ltb 512 (num_cells m)

unfoldable pub reset_btree_page : Memory → Memory
unfolding btree_init set_page_type set_num_cells set_next_leaf_id set_parent_id zero_fill
reset_btree_page m =
    let p = set_num_cells (set_page_type (btree_init m) page_type_leaf) 0 in
    zero_fill (set_parent_id (set_next_leaf_id p 0) 0) btree_header_size page_size
