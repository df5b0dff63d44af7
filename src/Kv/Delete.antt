-- ===== src/Kv/Delete.antt =====
-- Delete of the key-value store on a leaf that holds cells in the order of their keys.
use mathlib.Core.Path.{subst}
use ultimate_db.Prelude.{
  ℕ, ◌+◌, ◌≤◌, ◌≡◌, refl, ◌∙◌, ap, sym, Option, none, some, List, [], ◌∷◌, ◌++◌, length, arith, inl,
  inr, bytes_eq_iff,
}
use ultimate_db.Bytes.Order.{bytes_lt_irrefl}
use ultimate_db.Memory.{Memory}
use ultimate_db.Page.{page_size}
use ultimate_db.BTree.{Cell, cell_bytes, num_cells, btree_header_size}
use ultimate_db.BTree.Leaf.{find_cell, delete_leaf_cell, tail_offset}
use ultimate_db.BTree.Leaf.Cells.{
  cell_size, total, total-append, CellsAt, Holds, CellsAt-split, cell_bytes-CellAt,
  leaf_cell-CellAt,
}
use ultimate_db.BTree.Leaf.Delete.{HeaderKept, tail_offset-CellsAt, delete_leaf_cell-Holds}
use ultimate_db.BTree.Leaf.Find.{
  locate, without, without-append, Split, locate-cases, find_cell-Holds, without-Split,
}
use ultimate_db.BTree.Leaf.Sorted.{lookup_cell, Above, Sorted}
use ultimate_db.Kv.{Deleted, deleted, not_found, total_size, delete_from_leaf}

total_size-CellsAt :
    (m : Memory) (off : ℕ) (cs : List Cell)
    → CellsAt m off cs
    → off + total cs ≤ page_size
    → total_size m (length cs) off ≡ off + total cs
unfolding total_size
total_size-CellsAt m off [] h le = omega arith
total_size-CellsAt m off (c ∷ cs) h le = ground (
  arith,
  leaf_cell-CellAt m off c h.0,
  ap (λ n. total_size m (length cs) n) (ap (λ n. off + n) (cell_bytes-CellAt m off c h.0)),
  total_size-CellsAt m (off + cell_size c) cs h.1,
)

-- On a leaf that holds cells Delete does what deleteLeafCell does.
delete_from_leaf-delete_leaf_cell :
    (m m' : Memory) (key : List ℕ) (cs : List Cell) (off : ℕ) (c : Cell)
    → Holds m cs
    → find_cell m key (num_cells m) btree_header_size ≡ some (off, c)
    → off + cell_bytes m off ≤ 24 + total cs
    → delete_leaf_cell m off (cell_bytes m off) ≡ some m'
    → delete_from_leaf m key ≡ (m', deleted)
unfolding delete_from_leaf delete_leaf_cell
delete_from_leaf-delete_leaf_cell m m' key cs off c h e le put = ground (
  arith,
  e,
  put,
  h.room,
  ap (λ n. total_size m n 24) h.count,
  ap (λ n. tail_offset m n 24) h.count,
  total_size-CellsAt m 24 cs h.cells h.room,
  tail_offset-CellsAt m 24 cs h.cells h.room,
)

delete_from_leaf_away :
    (m : Memory) (key : List ℕ)
    → find_cell m key (num_cells m) btree_header_size ≡ none
    → delete_from_leaf m key ≡ (m, not_found)
unfolding delete_from_leaf
delete_from_leaf_away m key e = ground (arith, e)

without-Above : (key : List ℕ) (cs : List Cell) → Above key cs → without key cs ≡ cs
unfolding without
without-Above key [] h = refl
without-Above key (d ∷ cs) h =
    ground (arith, without-Above key cs h.1, h.0, bytes_lt_irrefl key, bytes_eq_iff key d.key)

Sorted-after : (xs : List Cell) (c : Cell) (ys : List Cell) → Sorted (xs ++ c ∷ ys) → Above c.key ys
Sorted-after [] c ys h = h.0
Sorted-after (x ∷ xs) c ys h = Sorted-after xs c ys h.1

-- In a sorted list the first cell with a key is the only one.
rest_of_Split :
    (key : List ℕ) (off : ℕ) (cs : List Cell) (s : Split key off cs)
    → Sorted cs
    → s.before ++ s.after ≡ without key cs
rest_of_Split key off cs s h =
    sym (
      without-append key s.before s.after
      ∙ ap (λ r. r ++ without key s.after) s.first
      ∙ ap (λ r. s.before ++ r)
          (without-Above key s.after (
            subst (λ k. Above k s.after) (sym ((bytes_eq_iff key s.cell.key).0 s.same_key))
              (Sorted-after s.before s.cell s.after (subst Sorted s.parts h)))))
    ∙ without-Split key off cs s

abbrev pub reply_of : Option (List ℕ) → Deleted
reply_of none = not_found
reply_of (some val) = deleted

lookup-locate-none :
    (key : List ℕ) (off : ℕ) (cs : List Cell) → locate key off cs ≡ none → lookup_cell key cs ≡ none
unfolding locate lookup_cell
lookup-locate-none key off [] e = refl
lookup-locate-none key off (c ∷ cs) e =
    ground (arith, e, lookup-locate-none key (off + cell_size c) cs)

lookup-locate-some :
    (key : List ℕ) (off : ℕ) (cs : List Cell) (at : ℕ) (c : Cell)
    → locate key off cs ≡ some (at, c)
    → lookup_cell key cs ≡ some c.value
unfolding locate lookup_cell
lookup-locate-some key off [] at c e = ground (arith, e)
lookup-locate-some key off (d ∷ cs) at c e =
    ground (arith, e, lookup-locate-some key (off + cell_size d) cs at c)

-- Delete leaves the other cells and says whether the key was there.
pub delete_from_leaf-Holds :
    (m : Memory) (key : List ℕ) (cs : List Cell)
    → Holds m cs
    → Sorted cs
    → (m' : Memory) × (delete_from_leaf m key ≡ (m', reply_of (lookup_cell key cs)))
      × Holds m' (without key cs)
      × HeaderKept m m'
delete_from_leaf-Holds m key cs h sorted = elim (locate-cases key 24 cs) [
  | inl (away, same) ↦ (
    m,
    delete_from_leaf_away m key (find_cell-Holds m key cs h ∙ away)
        ∙ ap (λ o. (m, reply_of o)) (sym (lookup-locate-none key 24 cs away)),
    subst (Holds m) (sym same) h,
    λ i p q. refl,
  )
  | inr s ↦
      let h' = subst (Holds m) s.parts h in
      let (m₁, gone, h₁, k₁) = delete_leaf_cell-Holds m s.before s.cell s.after h' in
      let size =
        cell_bytes-CellAt m (24 + total s.before) s.cell
          (CellsAt-split m 24 s.before (s.cell ∷ s.after) h'.cells).1.0 in
      (
        m₁,
        delete_from_leaf-delete_leaf_cell m m₁ key cs (24 + total s.before) s.cell h
              (find_cell-Holds m key cs h ∙ s.located)
              (omega (arith, size, ap total s.parts, total-append s.before (s.cell ∷ s.after)))
              (ap (delete_leaf_cell m (24 + total s.before)) size ∙ gone)
            ∙ ap (λ o. (m₁, reply_of o))
                (sym (lookup-locate-some key 24 cs (24 + total s.before) s.cell s.located)),
        subst (Holds m₁) (rest_of_Split key 24 cs s sorted) h₁,
        k₁,
      )
]
