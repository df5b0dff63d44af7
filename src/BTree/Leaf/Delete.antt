-- ===== src/BTree/Leaf/Delete.antt =====
-- deleteLeafCell on a leaf that holds cells: the cell is cut out of the list.
use ultimate_db.Prelude.{
  ℕ, ◌+◌, ◌-◌, ◌%◌, ◌^◌, ◌≤◌, ◌<◌, ◌≡◌, ◌∙◌, ap, some, List, [], ◌∷◌, ◌++◌, length, length-append,
  arith, ◌⊎◌, inl, inr,
}
use ultimate_db.Memory.{Memory, get_word-ext, get-put_self, put_word-outside}
use ultimate_db.Page.{page_size}
use ultimate_db.BTree.{
  Cell, page_type, num_cells, set_num_cells, btree_header_size, zero_fill, copy_within,
  next_leaf_id,
}
use ultimate_db.BTree.Leaf.{tail_offset, delete_leaf_cell}
use ultimate_db.BTree.Leaf.Cells.{
  cell_size, total, total-append, length-le-total, CellsAt, Holds, CellsAt-Moved, CellsAt-append,
  CellsAt-split, cell_bytes-CellAt,
}

-- The header but for the number of cells.
abbrev pub HeaderKept : Memory → Memory → Type 0
HeaderKept m m' = (i : ℕ) → i < 24 → (i < 2) ⊎ (4 ≤ i) → m' i ≡ m i

pub page_type-kept : (m m' : Memory) → HeaderKept m m' → page_type m' ≡ page_type m
unfolding page_type
page_type-kept m m' h = get_word-ext 2 0 (λ i a b. h i (omega arith) (inl (omega arith)))

pub next_leaf-kept : (m m' : Memory) → HeaderKept m m' → next_leaf_id m' ≡ next_leaf_id m
unfolding next_leaf_id
next_leaf-kept m m' h = get_word-ext 8 4 (λ i a b. h i (omega arith) (inr (omega arith)))

pub set_num_cells-outside : (m : Memory) (n i : ℕ) → (i < 2) ⊎ (4 ≤ i) → set_num_cells m n i ≡ m i
unfolding set_num_cells
set_num_cells-outside m n i h = put_word-outside 2 m 2 (n % 2 ^ 16) i (omega arith)

pub num_cells-set : (m : Memory) (n : ℕ) → num_cells (set_num_cells m n) ≡ n % 2 ^ 16
unfolding num_cells set_num_cells
num_cells-set m n = get-put_self 2 m 2 (n % 2 ^ 16) (omega arith)

pub tail_offset-CellsAt :
    (m : Memory) (off : ℕ) (cs : List Cell)
    → CellsAt m off cs
    → off + total cs ≤ page_size
    → tail_offset m (length cs) off ≡ off + total cs
unfolding tail_offset
tail_offset-CellsAt m off [] h le = omega arith
tail_offset-CellsAt m off (c ∷ cs) h le = ground (
  arith,
  cell_bytes-CellAt m off c h.0,
  ap (λ n. tail_offset m (length cs) n) (ap (λ n. off + n) (cell_bytes-CellAt m off c h.0)),
  tail_offset-CellsAt m (off + cell_size c) cs h.1,
)

-- The memory that is left.
cut : Memory → ℕ → ℕ → ℕ → ℕ → Memory
cut m off bytes tail n =
    set_num_cells
      (zero_fill (copy_within m off (off + bytes) (tail - bytes - off)) (tail - bytes) tail) n

module _ (m : Memory) (off bytes tail n : ℕ) where
  cut-below : (i : ℕ) → 4 ≤ i → i < off → off + bytes ≤ tail → cut m off bytes tail n i ≡ m i
  unfolding cut zero_fill copy_within
  cut-below i h lt le = set_num_cells-outside _ n i (inr h) ∙ ground arith

  cut-header :
      (i : ℕ)
      → i < 24
      → (i < 2) ⊎ (4 ≤ i)
      → 24 ≤ off
      → off + bytes ≤ tail
      → cut m off bytes tail n i ≡ m i
  unfolding cut zero_fill copy_within
  cut-header i lt apart le le' = set_num_cells-outside _ n i apart ∙ ground arith

  cut-slid :
      (j : ℕ)
      → 24 ≤ off
      → off + bytes + j < tail
      → cut m off bytes tail n (off + j) ≡ m (off + bytes + j)
  unfolding cut zero_fill copy_within
  cut-slid j le lt =
      set_num_cells-outside _ n (off + j) (inr (omega arith)) ∙ ground (arith, back off j)
    where
      back : (a j : ℕ) → a + j - a ≡ j
      back a j = omega arith

delete-steps :
    (m : Memory) (off bytes tail : ℕ)
    → tail_offset m (num_cells m) btree_header_size ≡ tail
    → off + bytes ≤ tail
    → tail ≤ page_size
    → delete_leaf_cell m off bytes ≡ some (cut m off bytes tail (num_cells m + 65535))
unfolding delete_leaf_cell cut
delete-steps m off bytes tail e le le' = rw e (ground arith)

-- The cell that starts behind `xs` is cut out.
module _ (m : Memory) (xs : List Cell) (c : Cell) (ys : List Cell)
    (h : Holds m (xs ++ c ∷ ys)) where
  abbrev off : ℕ
  off = 24 + total xs

  abbrev tail : ℕ
  tail = off + (cell_size c + total ys)

  abbrev left : Memory
  left = cut m off (cell_size c) tail (num_cells m + 65535)

  fits : tail ≤ page_size
  fits = omega (arith, h.room, total-append xs (c ∷ ys))

  tail_lem : tail_offset m (num_cells m) btree_header_size ≡ tail
  tail_lem =
      ap (λ n. tail_offset m n btree_header_size) h.count
      ∙ tail_offset-CellsAt m 24 (xs ++ c ∷ ys) h.cells h.room
      ∙ omega (arith, total-append xs (c ∷ ys))

  left-HeaderKept : HeaderKept m left
  left-HeaderKept i lt apart =
      cut-header m off (cell_size c) tail (num_cells m + 65535) i lt apart (omega arith)
        (omega arith)

  left-count : num_cells left ≡ length (xs ++ ys)
  unfolding cut
  left-count =
      num_cells-set _ (num_cells m + 65535)
      ∙ omega (
        arith,
        h.count,
        fits,
        length-append xs (c ∷ ys),
        length-append xs ys,
        length-le-total xs,
        length-le-total ys,
      )

  left-cells : CellsAt left 24 (xs ++ ys)
  left-cells =
      let (front, back) = CellsAt-split m 24 xs (c ∷ ys) h.cells in
      CellsAt-append left 24 xs ys
        (CellsAt-Moved m left 24 24 xs
          (λ j lt.
            cut-below m off (cell_size c) tail (num_cells m + 65535) (24 + j) (omega arith)
              (omega arith) (omega arith))
          front)
        (CellsAt-Moved m left (off + cell_size c) off ys
          (λ j lt.
            cut-slid m off (cell_size c) tail (num_cells m + 65535) j (omega arith) (omega arith))
          back.1)

  left-Holds : Holds left (xs ++ ys)
  left-Holds = record {
    leaf = page_type-kept m left left-HeaderKept ∙ h.leaf;
    count = left-count;
    room = omega (arith, fits, total-append xs ys);
    cells = left-cells;
  }

  pub delete_leaf_cell-Holds :
      (m' : Memory) × (delete_leaf_cell m off (cell_size c) ≡ some m')
      × Holds m' (xs ++ ys)
      × HeaderKept m m'
  delete_leaf_cell-Holds = (
    left,
    delete-steps m off (cell_size c) tail tail_lem (omega arith) fits,
    left-Holds,
    left-HeaderKept,
  )
