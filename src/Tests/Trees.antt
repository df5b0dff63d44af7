-- ===== src/Tests/Trees.antt =====
-- Tests of the B-tree and of the key-value store on it.
use mathlib.Core.Path.{subst}
use ultimate_db.Prelude.{
  ℕ, zero, suc, ◌+◌, ◌≡◌, refl, true, false, none, some, List, [], ◌∷◌, length, arith, replicate,
  lt→ltb, if◌then◌else◌, bytes_eq,
}
use ultimate_db.Memory.{Memory}
use ultimate_db.Page.{page_size}
use ultimate_db.BTree.{Cell, next_leaf_id}
use ultimate_db.BTree.Leaf.{insert_into_leaf}
use ultimate_db.BTree.Leaf.Cells.{Holds}
use ultimate_db.BTree.Leaf.Find.{without}
use ultimate_db.BTree.Leaf.Place.{insert_cell}
use ultimate_db.BTree.Leaf.Delete.{HeaderKept}
use ultimate_db.BTree.Leaf.Insert.{has_room, inserted, insert_into_leaf-Holds}
use ultimate_db.BTree.Leaf.Sorted.{lookup_cell}
use ultimate_db.BTree.Tree.{Tree, ok, find_leaf}
use ultimate_db.BTree.Tree.Routing.{find_leaf_leaf}
use ultimate_db.Kv.{kv_get, kv_put, kv_delete, reset_btree_page, btree_page_needs_reset}
use ultimate_db.Kv.Delete.{reply_of}
use ultimate_db.Kv.Laws.{get-put, get-delete}
use ultimate_db.Kv.Reset.{reset_btree_page-Holds}
use ultimate_db.Kv.Lost.{put_at_full_root}

abbrev empty_leaf : Memory
empty_leaf = reset_btree_page (λ i. 255)

empty_leaf_reset :
    Holds empty_leaf []
    × (next_leaf_id empty_leaf ≡ 0)
    × (btree_page_needs_reset empty_leaf ≡ false)
empty_leaf_reset = reset_btree_page-Holds (λ i. 255)

empty_leaf-Holds : Holds empty_leaf []
empty_leaf-Holds = (reset_btree_page-Holds (λ i. 255)).0

abbrev cell_b : Cell
cell_b = record { key = 98 ∷ []; value = 20 ∷ [] }

abbrev cell_d : Cell
cell_d = record { key = 100 ∷ []; value = 40 ∷ 41 ∷ [] }

-- insertIntoLeaf on the empty leaf, then on the result.
abbrev one_cell :
    (m : Memory) × (insert_into_leaf empty_leaf (98 ∷ []) (20 ∷ []) ≡ (m, true))
    × Holds m (cell_b ∷ [])
    × HeaderKept empty_leaf m
unfolding has_room without insert_cell
one_cell = insert_into_leaf-Holds empty_leaf [] (98 ∷ []) (20 ∷ []) empty_leaf-Holds

one_cell-Holds : Holds one_cell.0 (cell_b ∷ [])
one_cell-Holds = one_cell.2

insert_into_leaf-Holds_example :
    (m : Memory) × (insert_into_leaf one_cell.0 (100 ∷ []) (40 ∷ 41 ∷ [])
      ≡ (m, has_room (cell_b ∷ []) (100 ∷ []) (40 ∷ 41 ∷ [])))
    × Holds m (inserted (cell_b ∷ []) (100 ∷ []) (40 ∷ 41 ∷ []))
    × HeaderKept one_cell.0 m
insert_into_leaf-Holds_example =
    insert_into_leaf-Holds one_cell.0 (cell_b ∷ []) (100 ∷ []) (40 ∷ 41 ∷ []) one_cell-Holds

abbrev tree : Tree
tree = record { root = 3; pages = λ i. one_cell.0; allocated = 5 }

at_root : (key : List ℕ) → find_leaf 1 tree 3 key ≡ some 3
at_root key = find_leaf_leaf 0 tree 3 key one_cell-Holds.leaf

get-put_example :
    ((kv_put 1 tree (100 ∷ []) (40 ∷ 41 ∷ [])).1 ≡ ok)
    × ((j : List ℕ)
        → kv_get 1 (kv_put 1 tree (100 ∷ []) (40 ∷ 41 ∷ [])).0 j
          ≡ (if bytes_eq (100 ∷ []) j then some (some (40 ∷ 41 ∷ [])) else kv_get 1 tree j))
get-put_example =
    get-put 1 tree (100 ∷ []) (40 ∷ 41 ∷ []) 3 (cell_b ∷ []) (at_root (100 ∷ [])) one_cell-Holds
      (omega arith)

get-delete_example :
    (t' : Tree) × (kv_delete 1 tree (98 ∷ [])
      ≡ some (t', reply_of (lookup_cell (98 ∷ []) (cell_b ∷ []))))
    × ((j : List ℕ) → kv_get 1 t' j ≡ (if bytes_eq (98 ∷ []) j then some none else kv_get 1 tree j))
get-delete_example =
    get-delete 1 tree (98 ∷ []) 3 (cell_b ∷ []) (at_root (98 ∷ [])) one_cell-Holds (tt, tt)

length-replicate : (n b : ℕ) → length (replicate n b) ≡ n
length-replicate zero b = refl
length-replicate (suc n) b = omega (arith, length-replicate n b)

abbrev large : ℕ → List ℕ
large n = replicate n 7

abbrev big_cell : Cell
big_cell = record { key = 98 ∷ []; value = large 20000 }

big_fits : has_room [] (98 ∷ []) (large 20000) ≡ true
unfolding has_room without
big_fits =
    lt→ltb (24 + 0 + (4 + 1 + length (large 20000))) page_size
      (omega (arith, length-replicate 20000 7))

abbrev big_leaf : Memory
big_leaf = (insert_into_leaf-Holds empty_leaf [] (98 ∷ []) (large 20000) empty_leaf-Holds).0

big_leaf-Holds : Holds big_leaf (big_cell ∷ [])
unfolding without insert_cell
big_leaf-Holds =
    subst (λ b. Holds big_leaf (if b then big_cell ∷ [] else [])) big_fits
      (insert_into_leaf-Holds empty_leaf [] (98 ∷ []) (large 20000) empty_leaf-Holds).2

abbrev full_tree : Tree
full_tree = record { root = 3; pages = λ i. big_leaf; allocated = 5 }

put_at_full_root_example :
    ((kv_put 1 full_tree (100 ∷ []) (large 20000)).1 ≡ ok)
    × ((j : List ℕ)
        → kv_get 2 (kv_put 1 full_tree (100 ∷ []) (large 20000)).0 j
          ≡ (if bytes_eq (100 ∷ []) j then some none else kv_get 1 full_tree j))
unfolding without bytes_eq
put_at_full_root_example =
    put_at_full_root 0 full_tree (100 ∷ []) (large 20000) (big_cell ∷ []) big_leaf-Holds (tt, tt)
      (omega (arith, length-replicate 20000 7)) (omega arith) (omega arith) (omega arith)
