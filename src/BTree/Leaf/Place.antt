-- ===== src/BTree/Leaf/Place.antt =====
-- The second half of insertIntoLeaf: a cell is put before the first one with a greater key.
use mathlib.Core.Path.{subst}
use ultimate_db.Prelude.{
  ℕ, ◌+◌, ◌-◌, ◌^◌, ◌≤◌, ◌<◌, ◌≡◌, refl, ◌∙◌, ap, sym, Option, none, some, List, [], ◌∷◌, ◌++◌,
  length, length-append, arith, ◌⊎◌, inl, inr, if◌then◌else◌, ltb, Bool-cases,
}
use ultimate_db.Bytes.{bytes_lt}
use ultimate_db.Memory.{
  Memory, get-put_self, get-put_outside, get-write_outside, read-write_self, read-write_outside,
  write_bytes-outside, put_word-outside,
}
use ultimate_db.Page.{page_size}
use ultimate_db.BTree.{Cell, num_cells, set_num_cells, btree_header_size, copy_within}
use ultimate_db.BTree.Leaf.{insert_offset, or_end, put_cell, place_cell, required}
use ultimate_db.BTree.Leaf.Cells.{
  cell_size, total, total-append, length-le-total, CellAt, CellsAt, Holds, CellAt-Moved,
  CellsAt-Moved, CellsAt-append, CellsAt-split, cell_bytes-CellAt, leaf_cell-CellAt,
}
use ultimate_db.BTree.Leaf.Delete.{HeaderKept, page_type-kept, set_num_cells-outside, num_cells-set}

-- On the list.
unfoldable pub insert_cell : Cell → List Cell → List Cell
insert_cell c [] = c ∷ []
insert_cell c (d ∷ cs) =
    let rest = insert_cell c cs in if bytes_lt c.key d.key then c ∷ d ∷ cs else d ∷ rest

place_offset : List ℕ → ℕ → List Cell → Option ℕ
place_offset key off [] = none
place_offset key off (c ∷ cs) =
    if bytes_lt key c.key then some off else place_offset key (off + cell_size c) cs

insert_offset-CellsAt :
    (m : Memory) (key : List ℕ) (off : ℕ) (cs : List Cell)
    → CellsAt m off cs
    → off + total cs ≤ page_size
    → insert_offset m key (length cs) off ≡ (place_offset key off cs, off + total cs)
unfolding insert_offset place_offset
insert_offset-CellsAt m key off [] h le = ap (λ n. (none, n)) (plus_zero off)
  where
    plus_zero : (n : ℕ) → n ≡ n + 0
    plus_zero n = omega arith
insert_offset-CellsAt m key off (c ∷ cs) h le = ground (
  arith,
  leaf_cell-CellAt m off c h.0,
  ap (λ n. insert_offset m key (length cs) n) (ap (λ n. off + n) (cell_bytes-CellAt m off c h.0)),
  insert_offset-CellsAt m key (off + cell_size c) cs h.1,
  assoc off (cell_size c) (total cs),
)
  where
    assoc : (a b c : ℕ) → a + b + c ≡ a + (b + c)
    assoc a b c = omega arith

-- Where the cell goes.
record Place (c : Cell) (off : ℕ) (cs : List Cell) : Type 0 where
  before : List Cell
  after : List Cell
  parts : cs ≡ before ++ after
  inserted : insert_cell c cs ≡ before ++ c ∷ after
  at : or_end (place_offset c.key off cs, off + total cs) ≡ off + total before

place-cases : (c : Cell) (off : ℕ) (cs : List Cell) → Place c off cs
unfolding insert_cell place_offset
place-cases c off [] = record { before = []; after = []; parts = refl; inserted = refl; at = refl }
place-cases c off (d ∷ cs) = elim (Bool-cases (bytes_lt c.key d.key)) [
  | inl e ↦ record {
    before = [];
    after = d ∷ cs;
    parts = refl;
    inserted = rw e;
    at = rw e (plus_zero off);
  }
  | inr e ↦
      let s = place-cases c (off + cell_size d) cs in
      record {
        before = d ∷ s.before;
        after = s.after;
        parts = ap (λ r. d ∷ r) s.parts;
        inserted = rw e (ap (λ r. d ∷ r) s.inserted);
        at = rw e (
            ap (λ n. or_end (place_offset c.key (off + cell_size d) cs, n))
              (sym (assoc off (cell_size d) (total cs)))
            ∙ s.at
            ∙ assoc off (cell_size d) (total s.before));
      }
]
  where
    plus_zero : (n : ℕ) → n ≡ n + 0
    plus_zero n = omega arith

    assoc : (a b c : ℕ) → a + b + c ≡ a + (b + c)
    assoc a b c = omega arith

module _ (m : Memory) (at : ℕ) (c : Cell) where
  put_cell-outside :
      (i : ℕ) → (i < at) ⊎ (at + cell_size c ≤ i) → put_cell m at c.key c.value i ≡ m i
  unfolding put_cell
  put_cell-outside i h =
      write_bytes-outside _ (at + 4 + length c.key) c.value i (omega arith)
      ∙ write_bytes-outside _ (at + 4) c.key i (omega arith)
      ∙ put_word-outside 2 _ (at + 2) _ i (omega arith)
      ∙ put_word-outside 2 _ at _ i (omega arith)

  put_cell-CellAt : cell_size c < 2 ^ 16 → CellAt (put_cell m at c.key c.value) at c
  unfolding put_cell
  put_cell-CellAt lt = record {
    key_size =
        get-write_outside 2 _ (at + 4 + length c.key) c.value at (inl (omega arith))
        ∙ get-write_outside 2 _ (at + 4) c.key at (inl (omega arith))
        ∙ get-put_outside 2 _ (at + 2) 2 _ at (inl (omega arith))
        ∙ get-put_self 2 m at _ (omega arith)
        ∙ omega arith;
    value_size =
        get-write_outside 2 _ (at + 4 + length c.key) c.value (at + 2) (inl (omega arith))
        ∙ get-write_outside 2 _ (at + 4) c.key (at + 2) (inl (omega arith))
        ∙ get-put_self 2 _ (at + 2) _ (omega arith)
        ∙ omega arith;
    key_bytes =
        read-write_outside _ (at + 4 + length c.key) c.value (at + 4) (length c.key)
          (inl (omega arith))
        ∙ read-write_self _ (at + 4) c.key;
    value_bytes = read-write_self _ (at + 4 + length c.key) c.value;
  }

-- The cells behind `at` moved up by `n`.
slide : Memory → ℕ → ℕ → ℕ → Memory
slide m at n end = if ltb at end then copy_within m (at + n) at (end - at) else m

slide-below : (m : Memory) (at n end i : ℕ) → i < at → slide m at n end i ≡ m i
unfolding slide copy_within
slide-below m at n end i lt = ground arith

slide-moved :
    (m : Memory) (at n end j : ℕ) → at + j < end → slide m at n end (at + n + j) ≡ m (at + j)
unfolding slide copy_within
slide-moved m at n end j lt = ground (arith, back at n j)
  where
    back : (a n j : ℕ) → a + n + j - (a + n) ≡ j
    back a n j = omega arith

place-steps :
    (m : Memory) (key val : List ℕ) (at end : ℕ) (o : Option ℕ)
    → insert_offset m key (num_cells m) btree_header_size ≡ (o, end)
    → or_end (o, end) ≡ at
    → at + required key val ≤ page_size
    → place_cell m key val
      ≡ some (
          set_num_cells (put_cell (slide m at (required key val) end) at key val) (num_cells m + 1))
unfolding place_cell slide
place-steps m key val at end o e e' le = rw (e, e') (ground arith)

module _ (m : Memory) (cs : List Cell) (c : Cell) (h : Holds m cs)
    (room : 24 + total cs + cell_size c ≤ page_size) where
  abbrev s : Place c 24 cs
  s = place-cases c 24 cs

  abbrev at : ℕ
  at = 24 + total s.before

  abbrev slid : Memory
  slid = slide m at (cell_size c) (24 + total cs)

  abbrev grown : Memory
  grown = set_num_cells (put_cell slid at c.key c.value) (num_cells m + 1)

  sizes : total cs ≡ total s.before + total s.after
  sizes = ap total s.parts ∙ total-append s.before s.after

  grown-outside : (i : ℕ) → (i < 2) ⊎ (4 ≤ i) → (i < at) ⊎ (at + cell_size c ≤ i) → grown i ≡ slid i
  grown-outside i apart out =
      set_num_cells-outside _ (num_cells m + 1) i apart ∙ put_cell-outside slid at c i out

  grown-HeaderKept : HeaderKept m grown
  grown-HeaderKept i lt apart =
      grown-outside i apart (inl (omega arith))
      ∙ slide-below m at (cell_size c) (24 + total cs) i (omega arith)

  grown-cells : CellsAt grown 24 (s.before ++ c ∷ s.after)
  grown-cells =
      let (front, back) =
        CellsAt-split m 24 s.before s.after (subst (CellsAt m 24) s.parts h.cells) in
      CellsAt-append grown 24 s.before (c ∷ s.after)
        (CellsAt-Moved m grown 24 24 s.before
          (λ j lt.
            grown-outside (24 + j) (inr (omega arith)) (inl (omega arith))
            ∙ slide-below m at (cell_size c) (24 + total cs) (24 + j) (omega arith))
          front)
        (
          CellAt-Moved (put_cell slid at c.key c.value) grown at at c
              (λ j lt. set_num_cells-outside _ (num_cells m + 1) (at + j) (inr (omega arith)))
              (put_cell-CellAt slid at c (omega (arith, room))),
          CellsAt-Moved m grown at (at + cell_size c) s.after
              (λ j lt.
                grown-outside (at + cell_size c + j) (inr (omega arith)) (inr (omega arith))
                ∙ slide-moved m at (cell_size c) (24 + total cs) j (omega (arith, sizes)))
              back,
        )

  grown-Holds : Holds grown (insert_cell c cs)
  grown-Holds = subst (Holds grown) (sym s.inserted) (record {
    leaf = page_type-kept m grown grown-HeaderKept ∙ h.leaf;
    count =
        num_cells-set _ (num_cells m + 1)
        ∙ omega (
          arith,
          h.count,
          ap length s.parts,
          length-append s.before s.after,
          length-append s.before (c ∷ s.after),
          length-le-total cs,
          room,
        );
    room = omega (arith, room, sizes, total-append s.before (c ∷ s.after));
    cells = grown-cells;
  })

  -- The cell is put in its place.
  pub place_cell-Holds :
      (m' : Memory) × (place_cell m c.key c.value ≡ some m')
      × Holds m' (insert_cell c cs)
      × HeaderKept m m'
  place_cell-Holds = (
    grown,
    place-steps m c.key c.value at (24 + total cs) (place_offset c.key 24 cs)
        (ap (λ n. insert_offset m c.key n btree_header_size) h.count
          ∙ insert_offset-CellsAt m c.key 24 cs h.cells h.room)
        s.at (omega (arith, room, sizes)),
    grown-Holds,
    grown-HeaderKept,
  )
