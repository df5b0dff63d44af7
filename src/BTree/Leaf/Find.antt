-- ===== src/BTree/Leaf/Find.antt =====
-- The search for a key in a leaf, and the loop that deletes every cell with it.
use mathlib.Core.Path.{subst}
use ultimate_db.Prelude.{
  ℕ, zero, suc, ◌+◌, ◌≤◌, ◌<◌, ◌≡◌, refl, ◌∙◌, ap, sym, true, Option, none, some, List, [], ◌∷◌,
  ◌++◌, length, length-append, arith, ◌⊎◌, inl, inr, if◌then◌else◌, bytes_eq, Bool-cases,
}
use ultimate_db.Memory.{Memory}
use ultimate_db.Page.{page_size}
use ultimate_db.BTree.{Cell, cell_bytes, num_cells, btree_header_size}
use ultimate_db.BTree.Leaf.{find_cell, delete_leaf_cell, purge}
use ultimate_db.BTree.Leaf.Cells.{
  cell_size, total, CellsAt, Holds, CellsAt-split, cell_bytes-CellAt, leaf_cell-CellAt,
}
use ultimate_db.BTree.Leaf.Delete.{HeaderKept, delete_leaf_cell-Holds}

-- The search on the list.
unfoldable pub locate : List ℕ → ℕ → List Cell → Option (ℕ × Cell)
locate key off [] = none
locate key off (c ∷ cs) =
    if bytes_eq key c.key then some (off, c) else locate key (off + cell_size c) cs

pub find_cell-CellsAt :
    (m : Memory) (key : List ℕ) (off : ℕ) (cs : List Cell)
    → CellsAt m off cs
    → off + total cs ≤ page_size
    → find_cell m key (length cs) off ≡ locate key off cs
unfolding find_cell locate
find_cell-CellsAt m key off [] h le = refl
find_cell-CellsAt m key off (c ∷ cs) h le = ground (
  arith,
  leaf_cell-CellAt m off c h.0,
  ap (λ n. find_cell m key (length cs) n) (ap (λ n. off + n) (cell_bytes-CellAt m off c h.0)),
  find_cell-CellsAt m key (off + cell_size c) cs h.1,
)

-- The cells with another key.
unfoldable pub without : List ℕ → List Cell → List Cell
without key [] = []
without key (c ∷ cs) = let rest = without key cs in if bytes_eq key c.key then rest else c ∷ rest

pub without-append :
    (key : List ℕ) (xs ys : List Cell) → without key (xs ++ ys) ≡ without key xs ++ without key ys
unfolding without
without-append key [] ys = refl
without-append key (c ∷ xs) ys = ground (arith, without-append key xs ys)

pub total-without : (key : List ℕ) (cs : List Cell) → total (without key cs) ≤ total cs
unfolding without
total-without key [] = omega arith
total-without key (c ∷ cs) = ground (arith, total-without key cs)

abbrev Absent : List ℕ → ℕ → List Cell → Type 0
Absent key off cs = (locate key off cs ≡ none) × (without key cs ≡ cs)

-- The first cell with the key.
pub record Split (key : List ℕ) (off : ℕ) (cs : List Cell) : Type 0 where
  pub before : List Cell
  pub cell : Cell
  pub after : List Cell
  pub parts : cs ≡ before ++ cell ∷ after
  pub located : locate key off cs ≡ some (off + total before, cell)
  pub same_key : bytes_eq key cell.key ≡ true
  pub first : without key before ≡ before

pub locate-cases :
    (key : List ℕ) (off : ℕ) (cs : List Cell)
    → ((locate key off cs ≡ none) × (without key cs ≡ cs)) ⊎ Split key off cs
unfolding locate without
locate-cases key off [] = inl (refl, refl)
locate-cases key off (c ∷ cs) = elim (Bool-cases (bytes_eq key c.key)) [
  | inl e ↦ inr (record {
    before = [];
    cell = c;
    after = cs;
    parts = refl;
    located = rw e (ap (λ n. some (n, c)) (plus_zero off));
    same_key = e;
    first = refl;
  })
  | inr e ↦ elim (locate-cases key (off + cell_size c) cs) [
    | inl (a, b) ↦ inl (rw e a, rw e (ap (λ r. c ∷ r) b))
    | inr s ↦ inr (record {
      before = c ∷ s.before;
      cell = s.cell;
      after = s.after;
      parts = ap (λ r. c ∷ r) s.parts;
      located =
          rw e (s.located ∙ ap (λ n. some (n, s.cell)) (assoc off (cell_size c) (total s.before)));
      same_key = s.same_key;
      first = rw e (ap (λ r. c ∷ r) s.first);
    })
  ]
]
  where
    plus_zero : (n : ℕ) → n ≡ n + 0
    plus_zero n = omega arith

    assoc : (a b c : ℕ) → a + b + c ≡ a + (b + c)
    assoc a b c = omega arith

pub without-Split :
    (key : List ℕ) (off : ℕ) (cs : List Cell) (s : Split key off cs)
    → without key (s.before ++ s.after) ≡ without key cs
unfolding without
without-Split key off cs s =
    without-append key s.before s.after
    ∙ sym
        (ap (without key) s.parts ∙ without-append key s.before (s.cell ∷ s.after) ∙ rw s.same_key)

pub find_cell-Holds :
    (m : Memory) (key : List ℕ) (cs : List Cell)
    → Holds m cs
    → find_cell m key (num_cells m) btree_header_size ≡ locate key 24 cs
find_cell-Holds m key cs h =
    ap (λ n. find_cell m key n btree_header_size) h.count
    ∙ find_cell-CellsAt m key 24 cs h.cells h.room

purge-done :
    (fuel : ℕ) (m : Memory) (key : List ℕ)
    → find_cell m key (num_cells m) btree_header_size ≡ none
    → purge fuel m key ≡ some m
unfolding purge
purge-done zero m key e = refl
purge-done (suc fuel) m key e = ground (arith, e)

purge-step :
    (fuel : ℕ) (m m' : Memory) (key : List ℕ) (off : ℕ) (c : Cell)
    → find_cell m key (num_cells m) btree_header_size ≡ some (off, c)
    → delete_leaf_cell m off (cell_bytes m off) ≡ some m'
    → purge (suc fuel) m key ≡ purge fuel m' key
unfolding purge
purge-step fuel m m' key off c e d = ground (arith, e, d)

-- All cells with the key are deleted, and only these.
pub purge-Holds :
    (fuel : ℕ) (m : Memory) (key : List ℕ) (cs : List Cell)
    → Holds m cs
    → length cs < fuel
    → (m' : Memory) × (purge fuel m key ≡ some m') × Holds m' (without key cs) × HeaderKept m m'
purge-Holds zero m key cs h lt = ground arith
purge-Holds (suc fuel) m key cs h lt = elim (locate-cases key 24 cs) [
  | inl (away, same) ↦ (
    m,
    purge-done (suc fuel) m key (find_cell-Holds m key cs h ∙ away),
    subst (Holds m) (sym same) h,
    λ i p q. refl,
  )
  | inr s ↦
      let h' = subst (Holds m) s.parts h in
      let (m₁, deleted, h₁, k₁) = delete_leaf_cell-Holds m s.before s.cell s.after h' in
      let (m₂, purged, h₂, k₂) = purge-Holds fuel m₁ key (s.before ++ s.after) h₁ (
        omega (
          arith,
          ap length s.parts,
          length-append s.before (s.cell ∷ s.after),
          length-append s.before s.after,
          lt,
        )) in
      (
        m₂,
        purge-step fuel m m₁ key (24 + total s.before) s.cell
              (find_cell-Holds m key cs h ∙ s.located)
              (ap (delete_leaf_cell m (24 + total s.before)) (
                  cell_bytes-CellAt m (24 + total s.before) s.cell
                    (CellsAt-split m 24 s.before (s.cell ∷ s.after) h'.cells).1.0)
                ∙ deleted)
            ∙ purged,
        subst (Holds m₂) (without-Split key 24 cs s) h₂,
        λ i p q. k₂ i p q ∙ k₁ i p q,
      )
]
