-- ===== src/BTree/Leaf/Cells.antt =====
-- The abstract view of a leaf: the list of its cells, from byte 24 up.
use mathlib.Core.Path.{subst}
use ultimate_db.Prelude.{
  ℕ, zero, suc, ◌+◌, ◌≤◌, ◌<◌, ◌≡◌, refl, ◌∙◌, ap, sym, some, List, [], ◌∷◌, ◌++◌, length, arith,
}
use ultimate_db.Bytes.{le_decode}
use ultimate_db.Memory.{Memory, get_word, read_bytes}
use ultimate_db.Page.{page_size}
use ultimate_db.BTree.{Cell, cell_bytes, leaf_cell, page_type, page_type_leaf, num_cells}

abbrev pub cell_size : Cell → ℕ
cell_size c = 4 + length c.key + length c.value

abbrev pub total : List Cell → ℕ
total [] = 0
total (c ∷ cs) = cell_size c + total cs

pub total-append : (xs ys : List Cell) → total (xs ++ ys) ≡ total xs + total ys
total-append [] ys = omega arith
total-append (c ∷ xs) ys = omega (arith, total-append xs ys)

-- A cell has four bytes at least.
pub length-le-total : (cs : List Cell) → length cs ≤ total cs
length-le-total [] = omega arith
length-le-total (c ∷ cs) = omega (arith, length-le-total cs)

-- The bytes at `off` are the cell `c`.
pub record CellAt (m : Memory) (off : ℕ) (c : Cell) : Type 0 where
  pub key_size : get_word 2 m off ≡ length c.key
  pub value_size : get_word 2 m (off + 2) ≡ length c.value
  pub key_bytes : read_bytes m (off + 4) (length c.key) ≡ c.key
  pub value_bytes : read_bytes m (off + 4 + length c.key) (length c.value) ≡ c.value

abbrev pub CellsAt : Memory → ℕ → List Cell → Type 0
CellsAt m off [] = Unit
CellsAt m off (c ∷ cs) = CellAt m off c × CellsAt m (off + cell_size c) cs

-- The leaf `m` holds the cells `cs`.
pub record Holds (m : Memory) (cs : List Cell) : Type 0 where
  pub leaf : page_type m ≡ page_type_leaf
  pub count : num_cells m ≡ length cs
  pub room : 24 + total cs ≤ page_size
  pub cells : CellsAt m 24 cs

-- `n` bytes of `m` at `from` are in `m'` at `to`.
abbrev pub Moved : Memory → ℕ → Memory → ℕ → ℕ → Type 0
Moved m from m' to n = (j : ℕ) → j < n → m' (to + j) ≡ m (from + j)

module _ (m m' : Memory) where
  pub read_bytes-Moved :
      (from to n : ℕ) → Moved m from m' to n → read_bytes m' to n ≡ read_bytes m from n
  unfolding read_bytes
  read_bytes-Moved from to zero h = refl
  read_bytes-Moved from to (suc n) h = ground (
    arith,
    ap m' (plus_zero to),
    ap m (plus_zero from),
    h 0 (omega arith),
    read_bytes-Moved (from + 1) (to + 1) n
        (λ j lt. ap m' (shift to j) ∙ h (1 + j) (omega arith) ∙ ap m (sym (shift from j))),
  )
    where
      plus_zero : (n : ℕ) → n + 0 ≡ n
      plus_zero n = omega arith

      shift : (n j : ℕ) → n + 1 + j ≡ n + (1 + j)
      shift n j = omega arith

  pub get_word-Moved : (w from to : ℕ) → Moved m from m' to w → get_word w m' to ≡ get_word w m from
  unfolding get_word
  get_word-Moved w from to h = ap le_decode (read_bytes-Moved from to w h)

  -- Part of a moved piece.
  pub Moved-part :
      (from to n k l : ℕ) → k + l ≤ n → Moved m from m' to n → Moved m (from + k) m' (to + k) l
  Moved-part from to n k l le h j lt =
      ap m' (assoc to k j) ∙ h (k + j) (omega arith) ∙ ap m (sym (assoc from k j))
    where
      assoc : (a b c : ℕ) → a + b + c ≡ a + (b + c)
      assoc a b c = omega arith

  pub CellAt-Moved :
      (from to : ℕ) (c : Cell) → Moved m from m' to (cell_size c) → CellAt m from c → CellAt m' to c
  CellAt-Moved from to c h at = record {
    key_size = get_word-Moved 2 from to (λ j lt. h j (omega arith)) ∙ at.key_size;
    value_size =
        get_word-Moved 2 (from + 2) (to + 2) (Moved-part from to (cell_size c) 2 2 (omega arith) h)
        ∙ at.value_size;
    key_bytes =
        read_bytes-Moved (from + 4) (to + 4) (length c.key)
          (Moved-part from to (cell_size c) 4 (length c.key) (omega arith) h)
        ∙ at.key_bytes;
    value_bytes =
        ap (λ i. read_bytes m' i (length c.value)) (plus to (length c.key))
        ∙ read_bytes-Moved (from + (4 + length c.key)) (to + (4 + length c.key)) (length c.value)
            (Moved-part from to (cell_size c) (4 + length c.key) (length c.value) (omega arith) h)
        ∙ ap (λ i. read_bytes m i (length c.value)) (sym (plus from (length c.key)))
        ∙ at.value_bytes;
  }
    where
      plus : (a b : ℕ) → a + 4 + b ≡ a + (4 + b)
      plus a b = omega arith

  pub CellsAt-Moved :
      (from to : ℕ) (cs : List Cell)
      → Moved m from m' to (total cs)
      → CellsAt m from cs
      → CellsAt m' to cs
  CellsAt-Moved from to [] h at = tt
  CellsAt-Moved from to (c ∷ cs) h at = (
    CellAt-Moved from to c (λ j lt. h j (omega arith)) at.0,
    CellsAt-Moved (from + cell_size c) (to + cell_size c) cs
        (Moved-part from to (cell_size c + total cs) (cell_size c) (total cs) (omega arith) h) at.1,
  )

pub CellsAt-append :
    (m : Memory) (off : ℕ) (xs ys : List Cell)
    → CellsAt m off xs
    → CellsAt m (off + total xs) ys
    → CellsAt m off (xs ++ ys)
CellsAt-append m off [] ys h k = subst (λ i. CellsAt m i ys) (plus_zero off) k
  where
    plus_zero : (n : ℕ) → n + 0 ≡ n
    plus_zero n = omega arith
CellsAt-append m off (c ∷ xs) ys h k = (
  h.0,
  CellsAt-append m (off + cell_size c) xs ys h.1
      (subst (λ i. CellsAt m i ys) (assoc off (cell_size c) (total xs)) k),
)
  where
    assoc : (a b c : ℕ) → a + (b + c) ≡ a + b + c
    assoc a b c = omega arith

pub CellsAt-split :
    (m : Memory) (off : ℕ) (xs ys : List Cell)
    → CellsAt m off (xs ++ ys)
    → CellsAt m off xs × CellsAt m (off + total xs) ys
CellsAt-split m off [] ys h = (tt, subst (λ i. CellsAt m i ys) (plus_zero off) h)
  where
    plus_zero : (n : ℕ) → n ≡ n + 0
    plus_zero n = omega arith
CellsAt-split m off (c ∷ xs) ys h =
    let (a, b) = CellsAt-split m (off + cell_size c) xs ys h.1 in
    ((h.0, a), subst (λ i. CellsAt m i ys) (assoc off (cell_size c) (total xs)) b)
  where
    assoc : (a b c : ℕ) → a + b + c ≡ a + (b + c)
    assoc a b c = omega arith

-- A cell that is there and ends on the page is read as it is.
pub leaf_cell-CellAt :
    (m : Memory) (off : ℕ) (c : Cell)
    → CellAt m off c
    → off + cell_size c ≤ page_size
    → leaf_cell m off ≡ some c
unfolding leaf_cell
leaf_cell-CellAt m off c h le = ground (arith, h.key_size, h.value_size, h.key_bytes, h.value_bytes)

pub cell_bytes-CellAt :
    (m : Memory) (off : ℕ) (c : Cell) → CellAt m off c → cell_bytes m off ≡ cell_size c
cell_bytes-CellAt m off c h = omega (arith, h.key_size, h.value_size)
