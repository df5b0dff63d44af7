-- ===== src/BTree/Tree/Halving.antt =====
-- SplitLeaf on a leaf that holds cells: the two halves hold the cells.
use ultimate_db.Prelude.{
  ℕ, zero, suc, ◌+◌, ◌-◌, ◌≤◌, ◌<◌, ◌≡◌, refl, ◌∙◌, ap, Option, none, some, List, [], ◌∷◌, ◌++◌,
  length, length-append, ◌⊎◌, arith, take, drop, inl, inr,
}
use ultimate_db.Memory.{Memory, get_word-ext, get-put_self, put_word-outside}
use ultimate_db.Page.{page_size}
use ultimate_db.BTree.{
  Cell, num_cells, page_type, page_type_leaf, set_page_type, btree_init, zero_fill, next_leaf_id,
  set_next_leaf_id, parent_id, set_parent_id,
}
use ultimate_db.BTree.Leaf.Cells.{
  cell_size, total, total-append, length-le-total, CellsAt, Holds, CellsAt-split, CellsAt-Moved,
  cell_bytes-CellAt, leaf_cell-CellAt,
}
use ultimate_db.BTree.Leaf.Delete.{num_cells-set, set_num_cells-outside}
use ultimate_db.BTree.Tree.{leaf_mid, copy_body, left_leaf, right_leaf}

abbrev pub first_key : List Cell → Option (List ℕ)
first_key [] = none
first_key (c ∷ cs) = some c.key

pub take-drop {ℓ} : {A : Type ℓ} (n : ℕ) (xs : List A) → take n xs ++ drop n xs ≡ xs
take-drop zero xs = refl
take-drop (suc n) [] = refl
take-drop (suc n) (x ∷ xs) = ap (λ r. x ∷ r) (take-drop n xs)

pub leaf_mid-CellsAt :
    (m : Memory) (mid off : ℕ) (cs : List Cell)
    → CellsAt m off cs
    → off + total cs ≤ page_size
    → leaf_mid m mid (length cs) off ≡ (first_key (drop mid cs), off + total (take mid cs))
unfolding leaf_mid
leaf_mid-CellsAt m zero off [] h le = ap (λ n. (none, n)) (omega arith)
leaf_mid-CellsAt m (suc mid) off [] h le = ap (λ n. (none, n)) (omega arith)
leaf_mid-CellsAt m zero off (c ∷ cs) h le = ground (arith, leaf_cell-CellAt m off c h.0)
leaf_mid-CellsAt m (suc mid) off (c ∷ cs) h le = ground (
  arith,
  leaf_cell-CellAt m off c h.0,
  ap (λ n. leaf_mid m mid (length cs) n) (ap (λ n. off + n) (cell_bytes-CellAt m off c h.0)),
  leaf_mid-CellsAt m mid (off + cell_size c) cs h.1,
)

module _ (fresh m : Memory) (new : ℕ) (xs ys : List Cell) (h : Holds m (xs ++ ys)) where
  abbrev off : ℕ
  off = 24 + total xs

  fits : off + total ys ≤ page_size
  fits = omega (arith, h.room, total-append xs ys)

  left_kept : (i : ℕ) → (i < 2) ⊎ (12 ≤ i) → i < off → left_leaf m new (length xs) off i ≡ m i
  unfolding left_leaf zero_fill set_next_leaf_id
  left_kept i apart lt = ground (
    arith,
    set_num_cells-outside (set_next_leaf_id m new) (length xs) i (omega arith),
    put_word-outside 8 m 4 new i (omega arith),
  )

  right_kept : (j : ℕ) → j < total ys → right_leaf fresh m (length xs) off (24 + j) ≡ m (off + j)
  unfolding right_leaf copy_body
  right_kept j lt =
      set_num_cells-outside _ (num_cells m - length xs) (24 + j) (inr (omega arith))
      ∙ ground (arith, fits, back j)
    where
      back : (j : ℕ) → 24 + j - 24 ≡ j
      back j = omega arith

  left_type : page_type (left_leaf m new (length xs) off) ≡ page_type_leaf
  unfolding page_type
  left_type = get_word-ext 2 0 (λ i a b. left_kept i (inl (omega arith)) (omega arith)) ∙ h.leaf

  left_count : num_cells (left_leaf m new (length xs) off) ≡ length xs
  unfolding left_leaf zero_fill num_cells
  left_count =
      get_word-ext 2 2 (λ i a b. ground (arith, b))
      ∙ num_cells-set (set_next_leaf_id m new) (length xs)
      ∙ omega (arith, fits, length-le-total xs)

  abbrev typed : Memory
  unfolding set_page_type btree_init
  typed = set_page_type (btree_init fresh) page_type_leaf

  right_type : page_type (right_leaf fresh m (length xs) off) ≡ page_type_leaf
  unfolding right_leaf copy_body set_page_type page_type set_next_leaf_id set_parent_id
  right_type =
      get_word-ext 2 0 (λ i a b.
        set_num_cells-outside _ (num_cells m - length xs) i (inl (omega arith))
        ∙ ground (
          arith,
          b,
          put_word-outside 8 (set_next_leaf_id typed (next_leaf_id m)) 12 (parent_id m) i
              (omega arith),
          put_word-outside 8 typed 4 (next_leaf_id m) i (omega arith),
        ))
      ∙ get-put_self 2 (btree_init fresh) 0 page_type_leaf (omega arith)

  right_count : num_cells (right_leaf fresh m (length xs) off) ≡ length ys
  unfolding right_leaf
  right_count =
      num_cells-set _ (num_cells m - length xs)
      ∙ omega (arith, h.count, fits, length-append xs ys, length-le-total ys)

  pub left_leaf-Holds : Holds (left_leaf m new (length xs) off) xs
  left_leaf-Holds = record {
    leaf = left_type;
    count = left_count;
    room = omega (arith, fits);
    cells =
        CellsAt-Moved m (left_leaf m new (length xs) off) 24 24 xs
          (λ j lt. left_kept (24 + j) (inr (omega arith)) (omega arith))
          (CellsAt-split m 24 xs ys h.cells).0;
  }

  pub right_leaf-Holds : Holds (right_leaf fresh m (length xs) off) ys
  right_leaf-Holds = record {
    leaf = right_type;
    count = right_count;
    room = omega (arith, fits);
    cells =
        CellsAt-Moved m (right_leaf fresh m (length xs) off) off 24 ys (λ j lt. right_kept j lt)
          (CellsAt-split m 24 xs ys h.cells).1;
  }
