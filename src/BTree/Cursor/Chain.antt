-- ===== src/BTree/Cursor/Chain.antt =====
-- What a cursor yields along a chain of leaves.
use mathlib.Core.Path.{subst}
use ultimate_db.Prelude.{
  ℕ, suc, ◌+◌, ◌^◌, ◌≤◌, ◌<◌, ◌≡◌, refl, ◌∙◌, ap, sym, true, false, none, some, List, [], ◌∷◌, ◌++◌,
  length, length-append, append_assoc, arith, nat_eq,
}
use ultimate_db.Memory.{Memory}
use ultimate_db.Page.{page_size}
use ultimate_db.BTree.{
  Cell, cell_bytes, num_cells, next_leaf_id, btree_header_size, page_type, page_type_leaf,
}
use ultimate_db.BTree.Leaf.Cells.{
  cell_size, total, total-append, length-le-total, CellAt, CellsAt-split, Holds, cell_bytes-CellAt,
}
use ultimate_db.BTree.Tree.{Tree}
use ultimate_db.BTree.Cursor.{
  Cursor, entry, end_of_file, cell_here, advance, cursor_next, opened, new_cursor,
}

-- The cursor yields the cells of the list and is then at the end.
abbrev pub Yields : Tree → Cursor → List Cell → Type 0
Yields t c [] = cursor_next t c ≡ (c, end_of_file)
Yields t c (x ∷ xs) = (c' : Cursor) × (cursor_next t c ≡ (c', entry x)) × Yields t c' xs

-- The leaf `id` holds `cs`, and the leaves behind it, none of them empty, hold the lists of `more`.
abbrev pub Chain : Tree → ℕ → List Cell → List (List Cell) → Type 0
Chain t id cs [] = Holds (t.pages id) cs × (next_leaf_id (t.pages id) ≡ 0)
Chain t id cs (ds ∷ more) =
    Holds (t.pages id) cs
    × (nat_eq (next_leaf_id (t.pages id)) 0 ≡ false)
    × (0 < length ds)
    × Chain t (next_leaf_id (t.pages id)) ds more

abbrev pub all_cells : List Cell → List (List Cell) → List Cell
all_cells cs [] = cs
all_cells cs (ds ∷ more) = cs ++ all_cells ds more

Chain-Holds :
    (t : Tree) (id : ℕ) (cs : List Cell) (more : List (List Cell))
    → Chain t id cs more
    → Holds (t.pages id) cs
Chain-Holds t id cs [] h = h.0
Chain-Holds t id cs (ds ∷ more) h = h.0

abbrev at_cell : ℕ → ℕ → ℕ → Cursor
at_cell id idx off = record { node = some id; cell_idx = idx; offset = off; is_eof = false }

cell_here-CellAt : (m : Memory) (off : ℕ) (x : Cell) → CellAt m off x → cell_here m off ≡ x
cell_here-CellAt m off x h = ground (arith, h.key_size, h.value_size, h.key_bytes, h.value_bytes)

cursor_next-CellAt :
    (t : Tree) (id idx off : ℕ) (x : Cell) (c : Cursor)
    → CellAt (t.pages id) off x
    → off + cell_size x ≤ page_size
    → advance t id (at_cell id idx off) ≡ c
    → cursor_next t (at_cell id idx off) ≡ (c, entry x)
unfolding cursor_next
cursor_next-CellAt t id idx off x c h le e =
    ground (arith, cell_bytes-CellAt (t.pages id) off x h, cell_here-CellAt (t.pages id) off x h, e)

module _ (t : Tree) (id idx off : ℕ) (x : Cell) (h : CellAt (t.pages id) off x) where
  advance_within :
      idx + 1 < num_cells (t.pages id)
      → num_cells (t.pages id) < 2 ^ 16
      → advance t id (at_cell id idx off) ≡ at_cell id (idx + 1) (off + cell_size x)
  unfolding advance
  advance_within lt small = ground (arith, lt, small, cell_bytes-CellAt (t.pages id) off x h)

  advance_last :
      num_cells (t.pages id) ≡ idx + 1
      → idx + 1 < 2 ^ 16
      → next_leaf_id (t.pages id) ≡ 0
      → (c : Cursor) × (advance t id (at_cell id idx off) ≡ c)
        × (cursor_next t c ≡ (c, end_of_file))
  unfolding advance cursor_next
  advance_last e small last =
      let c : Cursor = record {
        node = none;
        cell_idx = idx + 1;
        offset = off + cell_bytes (t.pages id) off;
        is_eof = true;
      } in
      (c, ground (arith, e, small, last), refl)

  advance_next :
      num_cells (t.pages id) ≡ idx + 1
      → idx + 1 < 2 ^ 16
      → nat_eq (next_leaf_id (t.pages id)) 0 ≡ false
      → advance t id (at_cell id idx off) ≡ at_cell (next_leaf_id (t.pages id)) 0 btree_header_size
  unfolding advance
  advance_next e small more = ground (arith, e, small, more)

-- The cell `x` behind the cells `before`.
module _ (t : Tree) (id : ℕ) (before : List Cell) (x : Cell) (after : List Cell)
    (h : Holds (t.pages id) (before ++ x ∷ after)) where
  abbrev off : ℕ
  off = 24 + total before

  abbrev here : Cursor
  here = at_cell id (length before) off

  at_lem : CellAt (t.pages id) off x
  at_lem = (CellsAt-split (t.pages id) 24 before (x ∷ after) h.cells).1.0

  fits : off + cell_size x + total after ≤ page_size
  fits = omega (arith, h.room, total-append before (x ∷ after))

  count_lem : num_cells (t.pages id) ≡ length before + suc (length after)
  count_lem = h.count ∙ length-append before (x ∷ after)

  small : length before + suc (length after) < 2 ^ 16
  small = omega (arith, fits, length-le-total before, length-le-total after)

  step_within :
      0 < length after
      → cursor_next t here
        ≡ (at_cell id (length (before ++ x ∷ [])) (24 + total (before ++ x ∷ [])), entry x)
  step_within more =
      cursor_next-CellAt t id (length before) off x
        (at_cell id (length before + 1) (off + cell_size x)) at_lem (omega (arith, fits))
        (advance_within t id (length before) off x at_lem (omega (arith, count_lem, more))
          (omega (arith, count_lem, small)))
      ∙ ap (λ n. (at_cell id n (off + cell_size x), entry x)) (sym (length-append before (x ∷ [])))
      ∙ ap (λ n. (at_cell id (length (before ++ x ∷ [])) n, entry x)) (sizes before x)
    where
      sizes :
          (before : List Cell) (x : Cell)
          → 24 + total before + cell_size x ≡ 24 + total (before ++ x ∷ [])
      sizes before x = omega (arith, total-append before (x ∷ []))

  step_end :
      length after ≡ 0
      → next_leaf_id (t.pages id) ≡ 0
      → (c : Cursor) × (cursor_next t here ≡ (c, entry x)) × (cursor_next t c ≡ (c, end_of_file))
  step_end last e =
      let (c, gone, eof) =
        advance_last t id (length before) off x at_lem (omega (arith, count_lem, last))
          (omega (arith, small)) e in
      (c, cursor_next-CellAt t id (length before) off x c at_lem (omega (arith, fits)) gone, eof)

  step_next :
      length after ≡ 0
      → nat_eq (next_leaf_id (t.pages id)) 0 ≡ false
      → cursor_next t here ≡ (at_cell (next_leaf_id (t.pages id)) 0 btree_header_size, entry x)
  step_next last e =
      cursor_next-CellAt t id (length before) off x
        (at_cell (next_leaf_id (t.pages id)) 0 btree_header_size) at_lem (omega (arith, fits))
        (advance_next t id (length before) off x at_lem (omega (arith, count_lem, last))
          (omega (arith, small)) e)

Yields-Chain_at :
    (t : Tree) (id : ℕ) (more : List (List Cell)) (before : List Cell) (x : Cell)
    (after : List Cell)
    → Chain t id (before ++ x ∷ after) more
    → Yields t (at_cell id (length before) (24 + total before)) (all_cells (x ∷ after) more)
Yields-Chain_at t id [] before x [] h = step_end t id before x [] h.0 refl h.1
Yields-Chain_at t id ((d ∷ ds) ∷ more) before x [] h = (
  at_cell (next_leaf_id (t.pages id)) 0 btree_header_size,
  step_next t id before x [] h.0 refl h.1,
  Yields-Chain_at t (next_leaf_id (t.pages id)) more [] d ds h.3,
)
Yields-Chain_at t id ([] ∷ more) before x [] h = ground (arith, h.2)
Yields-Chain_at t id [] before x (y ∷ ys) h = (
  at_cell id (length (before ++ x ∷ [])) (24 + total (before ++ x ∷ [])),
  step_within t id before x (y ∷ ys) h.0 (omega arith),
  Yields-Chain_at t id [] (before ++ x ∷ []) y ys
      (subst (λ cs. Chain t id cs []) (sym (append_assoc before (x ∷ []) (y ∷ ys))) h),
)
Yields-Chain_at t id (ds ∷ more) before x (y ∷ ys) h = (
  at_cell id (length (before ++ x ∷ [])) (24 + total (before ++ x ∷ [])),
  step_within t id before x (y ∷ ys) h.0 (omega arith),
  Yields-Chain_at t id (ds ∷ more) (before ++ x ∷ []) y ys
      (subst (λ cs. Chain t id cs (ds ∷ more)) (sym (append_assoc before (x ∷ []) (y ∷ ys))) h),
)

-- The cursor that is opened at a leaf.
abbrev pub start : Tree → ℕ → Cursor
start t id = record {
  node = some id;
  cell_idx = 0;
  offset = btree_header_size;
  is_eof = nat_eq (num_cells (t.pages id)) 0;
}

-- From the first cell of a leaf that is not empty the cursor yields the cells of the whole chain.
pub Yields-Chain :
    (t : Tree) (id : ℕ) (cs : List Cell) (more : List (List Cell))
    → Chain t id cs more
    → 0 < length cs
    → Yields t (start t id) (all_cells cs more)
Yields-Chain t id [] more h lt = ground (arith, lt)
Yields-Chain t id (x ∷ cs) more h lt =
    subst
      (λ b.
        Yields t (record { node = some id; cell_idx = 0; offset = btree_header_size; is_eof = b })
          (all_cells (x ∷ cs) more))
      (sym eof) (Yields-Chain_at t id more [] x cs h)
  where
    eof : nat_eq (num_cells (t.pages id)) 0 ≡ false
    eof = ground (arith, (Chain-Holds t id (x ∷ cs) more h).count)

-- At a root that is a leaf the cursor starts there.
pub new_cursor_leaf :
    (fuel : ℕ) (t : Tree) (id : ℕ)
    → page_type (t.pages id) ≡ page_type_leaf
    → new_cursor (suc fuel) t id ≡ opened (start t id)
unfolding new_cursor
new_cursor_leaf fuel t id e = ground (arith, e)
