-- ===== src/BTree/Cursor/Scan.antt =====
-- Scan along the leaves from the one that the prefix leads to.
use ultimate_db.Prelude.{
  ℕ, zero, suc, ◌+◌, ◌≤◌, ◌<◌, ◌≡◌, refl, ◌∙◌, ap, sym, false, some, List, [], ◌∷◌, ◌++◌, length,
  append_assoc, arith, if◌then◌else◌, nat_eq, Bool-cases, inl, inr,
}
use ultimate_db.Bytes.{has_prefix}
use ultimate_db.Memory.{Memory}
use ultimate_db.Page.{page_size}
use ultimate_db.BTree.{Cell, num_cells, next_leaf_id, btree_header_size}
use ultimate_db.BTree.Leaf.Cells.{
  cell_size, total, CellsAt, Holds, leaf_cell-CellAt, cell_bytes-CellAt,
}
use ultimate_db.BTree.Tree.{Tree, find_leaf}
use ultimate_db.BTree.Cursor.{scan_cells, scan_loop, scan_prefix}
use ultimate_db.BTree.Cursor.Chain.{all_cells}

-- The cells whose keys have the prefix.
unfoldable pub cells_matching : List ℕ → List Cell → List Cell
unfolding has_prefix
cells_matching p [] = []
cells_matching p (c ∷ cs) =
    let rest = cells_matching p cs in if has_prefix c.key p then c ∷ rest else rest

scan_cells-CellsAt :
    (m : Memory) (p : List ℕ) (off : ℕ) (cs : List Cell)
    → CellsAt m off cs
    → off + total cs ≤ page_size
    → scan_cells m p (length cs) off ≡ cells_matching p cs
unfolding scan_cells cells_matching
scan_cells-CellsAt m p off [] h le = refl
scan_cells-CellsAt m p off (c ∷ cs) h le = ground (
  arith,
  leaf_cell-CellAt m off c h.0,
  ap (λ n. scan_cells m p (length cs) n) (ap (λ n. off + n) (cell_bytes-CellAt m off c h.0)),
  scan_cells-CellsAt m p (off + cell_size c) cs h.1,
)

-- The leaf `id` holds `cs`, and the leaves behind it, empty ones among them, the lists of `more`.
abbrev pub Leaves : Tree → ℕ → List Cell → List (List Cell) → Type 0
Leaves t id cs [] = Holds (t.pages id) cs × (next_leaf_id (t.pages id) ≡ 0)
Leaves t id cs (ds ∷ more) =
    Holds (t.pages id) cs
    × (nat_eq (next_leaf_id (t.pages id)) 0 ≡ false)
    × Leaves t (next_leaf_id (t.pages id)) ds more

cells_matching-append :
    (p : List ℕ) (cs ds : List Cell)
    → cells_matching p (cs ++ ds) ≡ cells_matching p cs ++ cells_matching p ds
unfolding cells_matching
cells_matching-append p [] ds = refl
cells_matching-append p (c ∷ cs) ds = elim (Bool-cases (has_prefix c.key p)) [
  | inl e ↦ ground (arith, e, cells_matching-append p cs ds)
  | inr e ↦ ground (arith, e, cells_matching-append p cs ds)
]

scan_cells-Holds :
    (m : Memory) (p : List ℕ) (cs : List Cell)
    → Holds m cs
    → scan_cells m p (num_cells m) btree_header_size ≡ cells_matching p cs
scan_cells-Holds m p cs h =
    ap (λ n. scan_cells m p n btree_header_size) h.count
    ∙ scan_cells-CellsAt m p 24 cs h.cells h.room

module _ (fuel : ℕ) (t : Tree) (p : List ℕ) (id : ℕ) (acc cs : List Cell)
    (h : Holds (t.pages id) cs) where
  loop_last :
      next_leaf_id (t.pages id) ≡ 0
      → scan_loop (suc fuel) t p id acc ≡ some (acc ++ cells_matching p cs)
  unfolding scan_loop
  loop_last e = ground (arith, e, scan_cells-Holds (t.pages id) p cs h)

  loop_next :
      nat_eq (next_leaf_id (t.pages id)) 0 ≡ false
      → scan_loop (suc fuel) t p id acc
        ≡ scan_loop fuel t p (next_leaf_id (t.pages id)) (acc ++ cells_matching p cs)
  unfolding scan_loop
  loop_next e = ground (arith, e, scan_cells-Holds (t.pages id) p cs h)

scan_loop-Leaves :
    (fuel : ℕ) (t : Tree) (p : List ℕ) (id : ℕ) (acc cs : List Cell) (more : List (List Cell))
    → Leaves t id cs more
    → length more < fuel
    → scan_loop fuel t p id acc ≡ some (acc ++ cells_matching p (all_cells cs more))
scan_loop-Leaves zero t p id acc cs more h lt = ground (arith, lt)
scan_loop-Leaves (suc fuel) t p id acc cs [] h lt = loop_last fuel t p id acc cs h.0 h.1
scan_loop-Leaves (suc fuel) t p id acc cs (ds ∷ more) h lt =
    loop_next fuel t p id acc cs h.0 h.1
    ∙ scan_loop-Leaves fuel t p (next_leaf_id (t.pages id)) (acc ++ cells_matching p cs) ds more h.2
        (omega (arith, lt))
    ∙ ap some (
        append_assoc acc (cells_matching p cs) (cells_matching p (all_cells ds more))
        ∙ ap (λ xs. acc ++ xs) (sym (cells_matching-append p cs (all_cells ds more))))

-- Scan yields the cells with the prefix of the leaf that the prefix leads to and of all leaves
-- behind it, in their order, empty leaves among them; the rounds exceed the later leaves.
pub scan_prefix-Leaves :
    (rounds fuel : ℕ) (t : Tree) (p : List ℕ) (id : ℕ) (cs : List Cell) (more : List (List Cell))
    → find_leaf fuel t t.root p ≡ some id
    → Leaves t id cs more
    → length more < rounds
    → scan_prefix rounds fuel t p ≡ some (cells_matching p (all_cells cs more))
unfolding scan_prefix
scan_prefix-Leaves rounds fuel t p id cs more e h lt =
    ground (arith, e, scan_loop-Leaves rounds t p id [] cs more h lt)
