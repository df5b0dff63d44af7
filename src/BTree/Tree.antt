-- ===== src/BTree/Tree.antt =====
-- The tree over the pages of the buffer pool: btree.go's FindLeaf, Insert, pessimisticInsert,
-- SplitLeaf, SplitInternalNode and promoteToParent. A page that is fetched is always there, and the
-- optimistic pass of Insert is never overtaken.
pub mod Routing
pub mod Halving
pub mod Root
pub mod Split
pub mod InnerHalving
pub mod Formed
pub mod Kept
pub mod Promote
pub mod Climb
pub mod InsertKept
use ultimate_db.Prelude.{
  ℕ, zero, suc, ◌+◌, ◌-◌, ◌/◌, Bool, true, false, ◌&&◌, not, Option, none, some, List, [], ◌∷◌,
  length, ltb, leb, nat_eq, if◌then◌else◌,
}
use ultimate_db.Memory.{Memory, get_word, put_word, read_bytes, write_bytes}
use ultimate_db.Page.{page_size, init}
use ultimate_db.BTree.{
  key_length, cell_bytes, leaf_cell, num_cells, set_num_cells, btree_header_size,
  is_safe_for_insert, rightmost_child_id, set_rightmost_child_id, btree_init, page_type,
  set_page_type, page_type_leaf, page_type_internal, next_leaf_id, set_next_leaf_id, parent_id,
  set_parent_id, zero_fill, inner_cell_bytes,
}
use ultimate_db.BTree.Leaf.{insert_into_leaf, required}
use ultimate_db.BTree.Inner.{
  Entry, inner_cell, find_child_in_internal_node, insert_into_internal, put_entry,
}

-- The root, the pages by their ids, and the number of pages of the device.
pub record Tree : Type 0 where
  pub root : ℕ
  pub pages : ℕ → Memory
  pub allocated : ℕ

unfoldable pub set_page : Tree → ℕ → Memory → Tree
set_page t id m = record t { pages = λ i. if nat_eq i id then m else t.pages i }

-- bp.NewPage(): the page behind the last one, formatted as a slotted page.
unfoldable pub new_page : Tree → Tree × ℕ
unfolding set_page init
new_page t =
    (record (set_page t t.allocated (init (λ i. 0))) { allocated = suc t.allocated }, t.allocated)

-- FindLeaf; `none` is a walk longer than the fuel.
unfoldable pub find_leaf : ℕ → Tree → ℕ → List ℕ → Option ℕ
unfolding page_type find_child_in_internal_node
find_leaf zero t id key = none
find_leaf (suc fuel) t id key =
    let next = find_leaf fuel t (find_child_in_internal_node (t.pages id) key) key in
    if nat_eq (page_type (t.pages id)) page_type_internal then next else some id

-- Where the cell with the given number starts, if the walk gets to it, and where it stopped.
unfoldable pub leaf_mid : Memory → ℕ → ℕ → ℕ → Option (List ℕ) × ℕ
unfolding leaf_cell
leaf_mid m mid zero off = (none, off)
leaf_mid m zero (suc n) off = elim (leaf_cell m off) [
  | none ↦ (none, off)
  | some c ↦ (some c.key, off)
]
leaf_mid m (suc mid) (suc n) off =
    let rest = leaf_mid m mid n (off + cell_bytes m off) in
    elim (leaf_cell m off) [ none ↦ (none, off) | some c ↦ rest ]

abbrev pub key_or_nil : Option (List ℕ) → List ℕ
key_or_nil none = []
key_or_nil (some key) = key

-- copy(to.Data[24:], from.Data[off:])
unfoldable pub copy_body : Memory → Memory → ℕ → Memory
copy_body to from off i =
    if leb btree_header_size i && ltb i (btree_header_size + (page_size - off))
    then from (off + (i - btree_header_size))
    else to i

-- The two leaves of a split, and the key between them.
unfoldable pub left_leaf : Memory → ℕ → ℕ → ℕ → Memory
unfolding set_next_leaf_id set_num_cells zero_fill
left_leaf m new mid off = zero_fill (set_num_cells (set_next_leaf_id m new) mid) off page_size

unfoldable pub right_leaf : Memory → Memory → ℕ → ℕ → Memory
unfolding btree_init set_page_type set_next_leaf_id set_parent_id copy_body set_num_cells num_cells
    next_leaf_id parent_id
right_leaf fresh m mid off =
    let p = set_page_type (btree_init fresh) page_type_leaf in
    let p = set_parent_id (set_next_leaf_id p (next_leaf_id m)) (parent_id m) in
    set_num_cells (copy_body p m off) (num_cells m - mid)

pub record Halves : Type 0 where
  pub tree : Tree
  pub right : ℕ
  pub pivot : List ℕ

unfoldable pub halve_leaf : Tree → ℕ → Halves
unfolding new_page set_page leaf_mid left_leaf right_leaf num_cells
halve_leaf t id =
    let (t', new) = new_page t in
    let m = t.pages id in
    let mid = num_cells m / 2 in
    let (key, off) = leaf_mid m mid (num_cells m) btree_header_size in
    record {
      tree =
          set_page (set_page t' new (right_leaf (t'.pages new) m mid off)) id
            (left_leaf m new mid off);
      right = new;
      pivot = key_or_nil key;
    }

-- The cell in the middle of an inner page and its end; or where the walk stopped.
unfoldable pub inner_mid : Memory → ℕ → ℕ → ℕ → Option Entry × ℕ
unfolding inner_cell
inner_mid m mid zero off = (none, off)
inner_mid m zero (suc n) off = elim (inner_cell m off) [
  | none ↦ (none, off)
  | some e ↦ (some e, off + inner_cell_bytes m off)
]
inner_mid m (suc mid) (suc n) off =
    let rest = inner_mid m mid n (off + inner_cell_bytes m off) in
    elim (inner_cell m off) [ none ↦ (none, off) | some e ↦ rest ]

abbrev pub entry_or_nil : Option Entry → Entry
entry_or_nil none = record { child = 0; key = [] }
entry_or_nil (some e) = e

unfoldable pub left_inner : Memory → ℕ → ℕ → ℕ → Memory
unfolding set_rightmost_child_id set_num_cells zero_fill
left_inner m child mid off =
    zero_fill (set_num_cells (set_rightmost_child_id m child) mid) off page_size

-- numCells - midPoint - 1, on uint16
unfoldable pub right_inner : Memory → Memory → ℕ → ℕ → Memory
unfolding btree_init set_page_type set_parent_id set_rightmost_child_id rightmost_child_id copy_body
    set_num_cells num_cells parent_id
right_inner fresh m mid off =
    let p = set_parent_id (set_page_type (btree_init fresh) page_type_internal) (parent_id m) in
    let p = set_rightmost_child_id p (rightmost_child_id m) in
    set_num_cells (copy_body p m off) (num_cells m + 65535 - mid)

unfoldable pub halve_inner : Tree → ℕ → Halves
unfolding new_page set_page inner_mid left_inner right_inner num_cells
halve_inner t id =
    let (t', new) = new_page t in
    let m = t.pages id in
    let mid = num_cells m / 2 in
    let (cell, off) = inner_mid m mid (num_cells m) btree_header_size in
    let e = entry_or_nil cell in
    record {
      tree =
          set_page (set_page t' new (right_inner (t'.pages new) m mid off)) id
            (left_inner m e.child mid off);
      right = new;
      pivot = e.key;
    }

-- The new root of promoteToParent.
unfoldable pub root_page : Memory → ℕ → ℕ → List ℕ → Memory
unfolding btree_init set_page_type set_num_cells put_entry set_rightmost_child_id
root_page fresh left right pivot =
    let p = set_num_cells (set_page_type (btree_init fresh) page_type_internal) 1 in
    set_rightmost_child_id (put_entry p btree_header_size pivot left) right

unfoldable pub grow_root : Tree → ℕ → ℕ → List ℕ → Tree
unfolding new_page set_page root_page
grow_root t left right pivot =
    let (t', id) = new_page t in
    record (set_page t' id (root_page (t'.pages id) left right pivot)) { root = id }

-- `panicked` is the index -1 of promoteToParent's list of ancestors.
pub data Reply : Type 0 where
  ok page_full panicked lost : Reply

-- promoteToParent and SplitInternalNode, which call each other up the tree. The ancestors are
-- listed from the page that was split upwards.
unfoldable pub promote : Tree → ℕ → List ℕ → List ℕ → Tree × Reply
unfolding grow_root insert_into_internal set_page halve_inner
promote t right pivot [] = (t, panicked)
promote t right pivot (left ∷ []) =
    if nat_eq left t.root then (grow_root t left right pivot, ok) else (t, panicked)
promote t right pivot (left ∷ parent ∷ above) =
    let inserted = insert_into_internal (t.pages parent) pivot left right in
    let t' = set_page t parent inserted.0 in
    let halves = halve_inner t' parent in
    let up = promote halves.tree halves.right halves.pivot (parent ∷ above) in
    if nat_eq left t.root
    then (grow_root t left right pivot, ok)
    else if inserted.1
    then (t', ok)
    else up

unfoldable pub split_leaf : Tree → List ℕ → Tree × Reply
unfolding halve_leaf promote
split_leaf t [] = (t, panicked)
split_leaf t (leaf ∷ above) =
    let halves = halve_leaf t leaf in promote halves.tree halves.right halves.pivot (leaf ∷ above)

-- The way down of pessimisticInsert: the ancestors that stay locked, the last page first.
unfoldable pub descend : ℕ → Tree → ℕ → List ℕ → ℕ → List ℕ → Option (List ℕ)
unfolding page_type find_child_in_internal_node is_safe_for_insert
descend zero t id key bytes locked = none
descend (suc fuel) t id key bytes locked =
    let child = find_child_in_internal_node (t.pages id) key in
    let next =
      descend fuel t child key bytes
        (if is_safe_for_insert (t.pages child) bytes then child ∷ [] else child ∷ locked) in
    if nat_eq (page_type (t.pages id)) page_type_internal then next else some locked

unfoldable pub insert_or_split : Tree → List ℕ → List ℕ → List ℕ → Tree × Reply
unfolding insert_into_leaf set_page split_leaf
insert_or_split t key val [] = (t, panicked)
insert_or_split t key val (leaf ∷ above) =
    let inserted = insert_into_leaf (t.pages leaf) key val in
    let t' = set_page t leaf inserted.0 in
    let split = split_leaf t' (leaf ∷ above) in if inserted.1 then (t', ok) else split

-- `lost` is a walk longer than the fuel.
unfoldable pub pessimistic_insert : ℕ → Tree → List ℕ → List ℕ → Tree × Reply
unfolding descend insert_or_split
pessimistic_insert fuel t key val =
    elim (descend fuel t t.root key (required key val) (t.root ∷ [])) [
      | none ↦ (t, lost)
      | some locked ↦ insert_or_split t key val locked
    ]

unfoldable pub tree_insert : ℕ → Tree → List ℕ → List ℕ → Tree × Reply
unfolding find_leaf is_safe_for_insert insert_into_leaf set_page pessimistic_insert
tree_insert fuel t key val = elim (find_leaf fuel t t.root key) [
  | none ↦ (t, lost)
  | some leaf ↦
      let inserted = insert_into_leaf (t.pages leaf) key val in
      if is_safe_for_insert (t.pages leaf) (required key val)
      then (set_page t leaf inserted.0, if inserted.1 then ok else page_full)
      else pessimistic_insert fuel t key val
]
