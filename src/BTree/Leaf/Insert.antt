-- ===== src/BTree/Leaf/Insert.antt =====
-- insertIntoLeaf on a leaf that holds cells.
use ultimate_db.Prelude.{
  ℕ, suc, ◌+◌, ◌≤◌, ◌≡◌, ◌∙◌, ap, Bool, true, false, some, List, [], ◌∷◌, length, arith,
  if◌then◌else◌, ltb, Bool-cases, inl, inr, ltb→lt,
}
use ultimate_db.Memory.{Memory}
use ultimate_db.Page.{page_size}
use ultimate_db.BTree.{Cell, num_cells, leaf_end, is_safe_for_insert}
use ultimate_db.BTree.Leaf.{purge, place_cell, insert_into_leaf, required}
use ultimate_db.BTree.Leaf.Cells.{cell_size, total, CellsAt, Holds, cell_bytes-CellAt}
use ultimate_db.BTree.Leaf.Find.{without, purge-Holds}
use ultimate_db.BTree.Leaf.Place.{insert_cell, place_cell-Holds}
use ultimate_db.BTree.Leaf.Delete.{HeaderKept}

leaf_end-CellsAt :
    (m : Memory) (off : ℕ) (cs : List Cell)
    → CellsAt m off cs
    → off + total cs ≤ page_size
    → leaf_end m (length cs) off ≡ some (off + total cs)
unfolding leaf_end
leaf_end-CellsAt m off [] h le = ap some (omega arith)
leaf_end-CellsAt m off (c ∷ cs) h le = ground (
  arith,
  cell_bytes-CellAt m off c h.0,
  ap (λ n. leaf_end m (length cs) n) (ap (λ n. off + n) (cell_bytes-CellAt m off c h.0)),
  leaf_end-CellsAt m (off + cell_size c) cs h.1,
)

-- The test of the room is the test on the sizes.
pub is_safe_for_insert-Holds :
    (m : Memory) (cs : List Cell) (n : ℕ)
    → Holds m cs
    → is_safe_for_insert m n ≡ ltb (24 + total cs + n) page_size
unfolding is_safe_for_insert
is_safe_for_insert-Holds m cs n h =
    ground
      (arith, h.leaf, ap (λ k. leaf_end m k 24) h.count, leaf_end-CellsAt m 24 cs h.cells h.room)

-- The specification: room for the new cell, and what is left.
unfoldable pub has_room : List Cell → List ℕ → List ℕ → Bool
has_room cs key val = ltb (24 + total (without key cs) + required key val) page_size

abbrev pub inserted : List Cell → List ℕ → List ℕ → List Cell
inserted cs key val =
    if has_room cs key val
    then insert_cell (record { key = key; value = val }) (without key cs)
    else without key cs

insert_full :
    (m m' : Memory) (key val : List ℕ)
    → purge (suc (num_cells m)) m key ≡ some m'
    → is_safe_for_insert m' (required key val) ≡ false
    → insert_into_leaf m key val ≡ (m', false)
unfolding insert_into_leaf
insert_full m m' key val e full = ground (arith, e, full)

insert_steps :
    (m m' m'' : Memory) (key val : List ℕ)
    → purge (suc (num_cells m)) m key ≡ some m'
    → is_safe_for_insert m' (required key val) ≡ true
    → place_cell m' key val ≡ some m''
    → insert_into_leaf m key val ≡ (m'', true)
unfolding insert_into_leaf
insert_steps m m' m'' key val e safe e' = ground (arith, e, safe, e')

-- On a leaf that holds `cs`, insertIntoLeaf deletes the cells with the key and puts the new one in
-- its place, or reports ErrPageFull if it has no room, with the old cells gone all the same.
pub insert_into_leaf-Holds :
    (m : Memory) (cs : List Cell) (key val : List ℕ)
    → Holds m cs
    → (m' : Memory) × (insert_into_leaf m key val ≡ (m', has_room cs key val))
      × Holds m' (inserted cs key val)
      × HeaderKept m m'
unfolding has_room
insert_into_leaf-Holds m cs key val h =
    let (m₁, purged, h₁, k₁) =
      purge-Holds (suc (num_cells m)) m key cs h (omega (arith, h.count)) in
    elim (Bool-cases (ltb (24 + total (without key cs) + required key val) page_size)) [
      | inl room ↦
          let (m₂, put, h₂, k₂) =
            place_cell-Holds m₁ (without key cs) (record { key = key; value = val }) h₁
              (omega (arith, ltb→lt _ _ room)) in
          (
            m₂,
            insert_steps m m₁ m₂ key val purged
                  (is_safe_for_insert-Holds m₁ (without key cs) (required key val) h₁ ∙ room) put
                ∙ rw room,
            rw room h₂,
            λ i p q. k₂ i p q ∙ k₁ i p q,
          )
      | inr full ↦ (
        m₁,
        insert_full m m₁ key val purged
              (is_safe_for_insert-Holds m₁ (without key cs) (required key val) h₁ ∙ full)
            ∙ rw full,
        rw full h₁,
        k₁,
      )
    ]
