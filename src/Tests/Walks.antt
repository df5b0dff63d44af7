-- ===== src/Tests/Walks.antt =====
-- Tests of inner pages, of the walks along the leaves, and of the invariant of the tree.
use mathlib.Core.Path.{subst}
use ultimate_db.Prelude.{
  ℕ, ◌+◌, ◌≤◌, ◌<◌, ◌≡◌, refl, ◌∙◌, sym, true, false, some, List, [], ◌∷◌, arith, inl, inr,
  if◌then◌else◌, nat_eq, All, Bool-cases,
}
use ultimate_db.Bytes.{bytes_lt}
use ultimate_db.Memory.{Memory, get_word-ext, get-put_self, put_word-outside}
use ultimate_db.BTree.{
  Cell, page_type, page_type_internal, num_cells, next_leaf_id, set_next_leaf_id,
}
use ultimate_db.BTree.Leaf.{insert_into_leaf}
use ultimate_db.BTree.Leaf.Cells.{Holds, CellsAt-Moved}
use ultimate_db.BTree.Leaf.Find.{without}
use ultimate_db.BTree.Leaf.Place.{insert_cell}
use ultimate_db.BTree.Leaf.Delete.{HeaderKept, next_leaf-kept}
use ultimate_db.BTree.Leaf.Insert.{has_room, insert_into_leaf-Holds}
use ultimate_db.BTree.Leaf.Sorted.{Sorted}
use ultimate_db.BTree.Inner.{Entry, insert_into_internal, find_child_in_internal_node}
use ultimate_db.BTree.Inner.Insert.{slot_of}
use ultimate_db.BTree.Inner.Grow.{find_child-insert_into_internal}
use ultimate_db.BTree.Tree.{Tree, root_page, find_leaf}
use ultimate_db.BTree.Tree.Root.{root_page-InnerHolds}
use ultimate_db.BTree.Tree.Routing.{find_leaf_leaf, find_leaf_ends, Ranked}
use ultimate_db.BTree.Tree.Formed.{TreeFormed}
use ultimate_db.BTree.Cursor.{results, sort_merge_join, scan_prefix}
use ultimate_db.BTree.Cursor.Chain.{Chain, new_cursor_leaf}
use ultimate_db.BTree.Cursor.Join.{joined, sort_merge_join-Chain}
use ultimate_db.BTree.Cursor.Scan.{Leaves, cells_matching, scan_prefix-Leaves}
use ultimate_db.Kv.{reset_btree_page, keys_with_prefix}
use ultimate_db.Kv.Reset.{reset_btree_page-Holds}
use ultimate_db.Kv.Iterator.{keys_matching, keys_with_prefix-Chain}
use ultimate_db.Kv.Kept.{put_request, perform, perform-TreeFormed}
use ultimate_db.Kv.Recovered.{recover_slotted_kv_from_raw}
use ultimate_db.Kv.Bounded.{Bounded, recover_slotted_kv_from_raw-Bounded}

-- An inner page with one entry: the keys below "b" are on page 4, the others on page 5.
abbrev inner_page : Memory
inner_page = root_page (λ i. 255) 4 5 (98 ∷ [])

abbrev entry_b : Entry
entry_b = record { child = 4; key = 98 ∷ [] }

-- Page 5 is split at "d".
find_child-insert_into_internal_example :
    (m : Memory) × (insert_into_internal inner_page (100 ∷ []) 5 6 ≡ (m, true))
    × ((key : List ℕ)
        → find_child_in_internal_node m key ≡ (
            if nat_eq (slot_of key (entry_b ∷ [])) (slot_of (100 ∷ []) (entry_b ∷ []))
            then (if bytes_lt key (100 ∷ []) then 5 else 6)
            else find_child_in_internal_node inner_page key))
find_child-insert_into_internal_example =
    find_child-insert_into_internal inner_page (entry_b ∷ []) 5 (100 ∷ []) 5 6
      (root_page-InnerHolds (λ i. 255) 4 5 (98 ∷ []) (omega arith) (omega arith) (omega arith))
      (omega arith) (omega arith) (omega arith)

abbrev empty_leaf : Memory
empty_leaf = reset_btree_page (λ i. 255)

abbrev cell_b : Cell
cell_b = record { key = 98 ∷ []; value = 20 ∷ [] }

abbrev cell_d : Cell
cell_d = record { key = 100 ∷ []; value = 40 ∷ 41 ∷ [] }

abbrev leaf_d :
    (m : Memory) × (insert_into_leaf empty_leaf (100 ∷ []) (40 ∷ 41 ∷ []) ≡ (m, true))
    × Holds m (cell_d ∷ [])
    × HeaderKept empty_leaf m
unfolding has_room without insert_cell
leaf_d =
    insert_into_leaf-Holds empty_leaf [] (100 ∷ []) (40 ∷ 41 ∷ [])
      (reset_btree_page-Holds (λ i. 255)).0

leaf_d-Holds : Holds leaf_d.0 (cell_d ∷ [])
leaf_d-Holds = leaf_d.2

leaf_d_last : next_leaf_id leaf_d.0 ≡ 0
leaf_d_last = next_leaf-kept empty_leaf leaf_d.0 leaf_d.3 ∙ (reset_btree_page-Holds (λ i. 255)).1

abbrev leaf_b :
    (m : Memory) × (insert_into_leaf empty_leaf (98 ∷ []) (20 ∷ []) ≡ (m, true))
    × Holds m (cell_b ∷ [])
    × HeaderKept empty_leaf m
unfolding has_room without insert_cell
leaf_b =
    insert_into_leaf-Holds empty_leaf [] (98 ∷ []) (20 ∷ []) (reset_btree_page-Holds (λ i. 255)).0

-- The first leaf is on page 3, the second on page 9.
abbrev first_leaf : Memory
first_leaf = set_next_leaf_id leaf_b.0 9

set_next-outside : (m : Memory) (id i : ℕ) → i < 4 → set_next_leaf_id m id i ≡ m i
unfolding set_next_leaf_id
set_next-outside m id i lt = put_word-outside 8 m 4 id i (inl lt)

set_next-behind : (m : Memory) (id i : ℕ) → 12 ≤ i → set_next_leaf_id m id i ≡ m i
unfolding set_next_leaf_id
set_next-behind m id i le = put_word-outside 8 m 4 id i (inr le)

first_leaf-Holds : Holds first_leaf (cell_b ∷ [])
unfolding page_type num_cells
first_leaf-Holds = record {
  leaf = get_word-ext 2 0 (λ i a b. set_next-outside leaf_b.0 9 i (omega arith)) ∙ leaf_b.2.leaf;
  count = get_word-ext 2 2 (λ i a b. set_next-outside leaf_b.0 9 i (omega arith)) ∙ leaf_b.2.count;
  room = omega arith;
  cells =
      CellsAt-Moved leaf_b.0 first_leaf 24 24 (cell_b ∷ [])
        (λ j lt. set_next-behind leaf_b.0 9 (24 + j) (omega arith)) leaf_b.2.cells;
}

first_leaf_next : next_leaf_id first_leaf ≡ 9
unfolding next_leaf_id set_next_leaf_id
first_leaf_next = get-put_self 8 leaf_b.0 4 9 (omega arith)

abbrev two_leaves : Tree
two_leaves = record {
  root = 3;
  pages = λ i. if nat_eq i 3 then first_leaf else leaf_d.0;
  allocated = 10;
}

two_leaves-Chain : Chain two_leaves 3 (cell_b ∷ []) ((cell_d ∷ []) ∷ [])
two_leaves-Chain = (
  first_leaf-Holds,
  ground (arith, first_leaf_next),
  omega arith,
  subst (λ id. Chain two_leaves id (cell_d ∷ []) []) (sym first_leaf_next)
      (leaf_d-Holds, leaf_d_last),
)

two_leaves-Sorted : Sorted (cell_b ∷ cell_d ∷ [])
unfolding bytes_lt
two_leaves-Sorted = ((refl, tt), (tt, tt))

keys_with_prefix-Chain_example :
    keys_with_prefix 3 two_leaves (100 ∷ []) ≡ keys_matching (100 ∷ []) (cell_b ∷ cell_d ∷ [])
keys_with_prefix-Chain_example =
    keys_with_prefix-Chain 3 two_leaves (100 ∷ []) 3 (cell_b ∷ []) ((cell_d ∷ []) ∷ [])
      (new_cursor_leaf 2 two_leaves 3 first_leaf-Holds.leaf) two_leaves-Chain (omega arith)
      two_leaves-Sorted (omega arith)

sort_merge_join-Chain_example :
    sort_merge_join 5 two_leaves two_leaves
    ≡ some (results (joined (cell_b ∷ cell_d ∷ []) (cell_b ∷ cell_d ∷ [])))
sort_merge_join-Chain_example =
    sort_merge_join-Chain 5 two_leaves two_leaves 3 3 (cell_b ∷ []) (cell_b ∷ [])
      ((cell_d ∷ []) ∷ []) ((cell_d ∷ []) ∷ [])
      (new_cursor_leaf 4 two_leaves 3 first_leaf-Holds.leaf)
      (new_cursor_leaf 4 two_leaves 3 first_leaf-Holds.leaf) two_leaves-Chain two_leaves-Chain
      (omega arith) (omega arith) two_leaves-Sorted two_leaves-Sorted (omega arith)

two_leaves-Leaves : Leaves two_leaves 3 (cell_b ∷ []) ((cell_d ∷ []) ∷ [])
two_leaves-Leaves = (
  first_leaf-Holds,
  ground (arith, first_leaf_next),
  subst (λ id. Leaves two_leaves id (cell_d ∷ []) []) (sym first_leaf_next)
      (leaf_d-Holds, leaf_d_last),
)

-- Scan from the first of two leaves; the cell with the prefix is on the second.
scan_prefix-Leaves_example :
    scan_prefix 2 1 two_leaves (100 ∷ []) ≡ some (cells_matching (100 ∷ []) (cell_b ∷ cell_d ∷ []))
scan_prefix-Leaves_example =
    scan_prefix-Leaves 2 1 two_leaves (100 ∷ []) 3 (cell_b ∷ []) ((cell_d ∷ []) ∷ [])
      (find_leaf_leaf 0 two_leaves 3 (100 ∷ []) first_leaf-Holds.leaf) two_leaves-Leaves
      (omega arith)

-- No page of this tree is an inner one.
two_leaves-Ranked : Ranked (λ i. 0) two_leaves (98 ∷ [])
two_leaves-Ranked id e = elim (Bool-cases (nat_eq id 3)) [
  | inl same ↦ ground (arith, same, e, first_leaf-Holds.leaf)
  | inr other ↦ ground (arith, other, e, leaf_d-Holds.leaf)
]

find_leaf_ends_test :
    (id : ℕ) × (find_leaf 7 two_leaves 3 (98 ∷ []) ≡ some id)
    × (nat_eq (page_type (two_leaves.pages id)) page_type_internal ≡ false)
    × (find_leaf 1 two_leaves 3 (98 ∷ []) ≡ some id)
find_leaf_ends_test =
    find_leaf_ends (λ i. 0) two_leaves 3 (98 ∷ []) 7 two_leaves-Ranked (omega arith)

abbrev leaf_tree : Tree
leaf_tree = record { root = 3; pages = λ i. leaf_d.0; allocated = 10 }

leaf_tree-TreeFormed : TreeFormed leaf_tree
leaf_tree-TreeFormed = record {
  root_there = omega arith;
  pages_formed = λ i lt. inl (cell_d ∷ [], leaf_d-Holds, (tt, tt), (omega arith, tt));
}

perform-TreeFormed_example : TreeFormed (perform 4 leaf_tree (put_request (98 ∷ []) (20 ∷ [])))
perform-TreeFormed_example =
    perform-TreeFormed 4 leaf_tree (put_request (98 ∷ []) (20 ∷ [])) leaf_tree-TreeFormed
      (omega arith) (omega arith)

-- A record of transaction 1 with the key "mail:box:" and the value "A".
abbrev old_page : List ℕ
old_page =
    1 ∷ 0 ∷ 0 ∷ 0 ∷ 0 ∷ 0 ∷ 0 ∷ 0 ∷ 0 ∷ 0 ∷ 0 ∷ 0 ∷ 0 ∷ 0 ∷ 0 ∷ 0 ∷ 9 ∷ 0 ∷ 0 ∷ 0 ∷ 1 ∷ 0 ∷ 0 ∷ 0
    ∷ 109 ∷ 97 ∷ 105 ∷ 108 ∷ 58 ∷ 98 ∷ 111 ∷ 120 ∷ 58 ∷ 65 ∷ []

old_page_recovered :
    recover_slotted_kv_from_raw 0 old_page []
    ≡ ((109 ∷ 97 ∷ 105 ∷ 108 ∷ 58 ∷ 98 ∷ 111 ∷ 120 ∷ 58 ∷ []), 65 ∷ []) ∷ []
unfolding recover_slotted_kv_from_raw
old_page_recovered = refl

recover_slotted_kv_from_raw-Bounded_example :
    All Bounded (recover_slotted_kv_from_raw 0 old_page [])
recover_slotted_kv_from_raw-Bounded_example = recover_slotted_kv_from_raw-Bounded 0 old_page
