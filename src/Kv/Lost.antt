-- ===== src/Kv/Lost.antt =====
-- Put at a root that is a full leaf.
use mathlib.Core.Path.{subst}
use ultimate_db.Prelude.{
  ℕ, zero, suc, ◌+◌, ◌/◌, ◌≤◌, ◌<◌, ◌^◌, ◌≡◌, refl, ◌∙◌, ap, sym, true, false, none, some, List, [],
  ◌∷◌, length, arith, if◌then◌else◌, take, drop, bytes_eq, bytes_eq_iff,
}
use ultimate_db.Bytes.{bytes_lt}
use ultimate_db.Bytes.Order.{bytes_lt_irrefl}
use ultimate_db.Memory.{Memory}
use ultimate_db.Page.{page_size}
use ultimate_db.BTree.{Cell, page_type, page_type_leaf, is_safe_for_insert}
use ultimate_db.BTree.Leaf.{required, insert_into_leaf}
use ultimate_db.BTree.Leaf.Cells.{total, Holds}
use ultimate_db.BTree.Leaf.Find.{without, total-without}
use ultimate_db.BTree.Leaf.Insert.{is_safe_for_insert-Holds, has_room, insert_into_leaf-Holds}
use ultimate_db.BTree.Leaf.Sorted.{
  lookup_cell, lookup-without, lookup-Above, Above, Sorted, without-Sorted,
}
use ultimate_db.BTree.Tree.{
  Tree, Reply, ok, set_page, key_or_nil, descend, insert_or_split, split_leaf, pessimistic_insert,
  tree_insert,
}
use ultimate_db.BTree.Tree.Halving.{first_key}
use ultimate_db.BTree.Tree.Routing.{find_leaf_leaf, set_page_same}
use ultimate_db.BTree.Tree.Split.{
  lower, upper, pivot_of, grown, split_leaf-root, find_leaf-grown, grown-Holds,
}
use ultimate_db.Kv.{kv_get, kv_put}
use ultimate_db.Kv.Laws.{kv_get-Holds}

-- In a sorted list a key is in the part on its side of the pivot.
lookup-halves :
    (n : ℕ) (j : List ℕ) (cs : List Cell)
    → Sorted cs
    → n < length cs
    → lookup_cell j cs
      ≡ lookup_cell j
          (if bytes_lt j (key_or_nil (first_key (drop n cs))) then take n cs else drop n cs)
unfolding lookup_cell
lookup-halves zero j [] h lt = ground arith
lookup-halves (suc n) j [] h lt = ground arith
lookup-halves zero j (c ∷ cs) h lt =
    ground (arith, lookup-Above j c.key cs h.0, bytes_eq_iff j c.key, bytes_lt_irrefl j)
lookup-halves (suc n) j (c ∷ cs) h lt = ground (
  arith,
  lookup-halves n j cs h.1 (omega arith),
  bytes_eq_iff j c.key,
  below n cs h.0 (omega arith),
)
  where
    below :
        (n : ℕ) (cs : List Cell)
        → Above c.key cs
        → n < length cs
        → bytes_lt c.key (key_or_nil (first_key (drop n cs))) ≡ true
    below zero [] h lt = ground arith
    below (suc n) [] h lt = ground arith
    below zero (d ∷ cs) h lt = h.0
    below (suc n) (d ∷ cs) h lt = below n cs h.1 (omega arith)

lookup-pivot :
    (j : List ℕ) (cs : List Cell)
    → Sorted cs
    → lookup_cell j cs ≡ lookup_cell j (if bytes_lt j (pivot_of cs) then lower cs else upper cs)
lookup-pivot j [] h = ground arith
lookup-pivot j (c ∷ cs) h = lookup-halves (length (c ∷ cs) / 2) j (c ∷ cs) h (omega arith)

-- At a root that is a leaf the way down is the root.
descend_root :
    (fuel : ℕ) (t : Tree) (key : List ℕ) (bytes : ℕ)
    → page_type (t.pages t.root) ≡ page_type_leaf
    → descend (suc fuel) t t.root key bytes (t.root ∷ []) ≡ some (t.root ∷ [])
unfolding descend
descend_root fuel t key bytes leaf = ground (arith, leaf)

insert_or_split_full :
    (t : Tree) (key val : List ℕ) (id : ℕ) (m : Memory) (t' : Tree)
    → insert_into_leaf (t.pages id) key val ≡ (m, false)
    → split_leaf (set_page t id m) (id ∷ []) ≡ (t', ok)
    → insert_or_split t key val (id ∷ []) ≡ (t', ok)
unfolding insert_or_split
insert_or_split_full t key val id m t' put split =
    ground (arith, put)
    ∙ ap (λ p. split_leaf (set_page t id p) (id ∷ [])) (ap (λ r. r.0) put)
    ∙ split

tree_insert_full :
    (fuel : ℕ) (t : Tree) (key val : List ℕ) (r : Tree × Reply)
    → page_type (t.pages t.root) ≡ page_type_leaf
    → is_safe_for_insert (t.pages t.root) (required key val) ≡ false
    → insert_or_split t key val (t.root ∷ []) ≡ r
    → tree_insert (suc fuel) t key val ≡ r
unfolding tree_insert pessimistic_insert
tree_insert_full fuel t key val r leaf full e = ground (
  arith,
  find_leaf_leaf fuel t t.root key leaf,
  full,
  descend_root fuel t key (required key val) leaf,
  e,
)

module _ (fuel : ℕ) (t : Tree) (key val : List ℕ) (cs : List Cell) (h : Holds (t.pages t.root) cs)
    (full : page_size ≤ 24 + total (without key cs) + required key val) where
  abbrev rest : List Cell
  rest = without key cs

  no_room : has_room cs key val ≡ false
  unfolding has_room
  no_room = ground (arith, full)

  purged : (m : Memory) × (insert_into_leaf (t.pages t.root) key val ≡ (m, false)) × Holds m rest
  purged =
      let (m, put, h', kept) = insert_into_leaf-Holds (t.pages t.root) cs key val h in
      (m, put ∙ ap (λ b. (m, b)) no_room, subst (Holds m) (rw no_room refl) h')

  abbrev emptied : Tree
  emptied = set_page t t.root purged.0

  emptied-Holds : Holds (emptied.pages t.root) rest
  emptied-Holds = subst (λ m. Holds m rest) (sym (set_page_same t t.root purged.0)) purged.2

  abbrev after_split : Tree
  after_split = grown emptied t.root rest emptied-Holds

  kv_put_full : kv_put (suc fuel) t key val ≡ (after_split, ok)
  unfolding kv_put set_page
  kv_put_full =
      tree_insert_full fuel t key val (after_split, ok) h.leaf
        (is_safe_for_insert-Holds (t.pages t.root) cs (required key val) h
          ∙ ground (arith, full, total-without key cs))
        (insert_or_split_full t key val t.root purged.0 after_split purged.1
          (split_leaf-root emptied t.root rest emptied-Holds refl))

  get-after_split :
      Sorted cs
      → t.root < t.allocated
      → t.allocated < 2 ^ 32
      → 34 + length (pivot_of rest) ≤ page_size
      → (j : List ℕ) → kv_get (suc (suc fuel)) after_split j ≡ some (lookup_cell j rest)
  unfolding set_page
  get-after_split sorted lt small fits j =
      kv_get-Holds (suc (suc fuel)) after_split j
        (if bytes_lt j (pivot_of rest) then t.root else t.allocated)
        (if bytes_lt j (pivot_of rest) then lower rest else upper rest)
        (find_leaf-grown emptied t.root rest emptied-Holds lt small fits fuel j)
        (grown-Holds emptied t.root rest emptied-Holds lt small fits j)
      ∙ ap some (sym (lookup-pivot j rest (without-Sorted key cs sorted)))

-- Put at a root that is a leaf without room for the cell, even once the cells with the key are gone:
-- Put reports success and splits the leaf, but the new cell is in neither half, so a client finds
-- no value of the key afterwards; the other keys keep their values.
pub put_at_full_root :
    (fuel : ℕ) (t : Tree) (key val : List ℕ) (cs : List Cell)
    → Holds (t.pages t.root) cs
    → Sorted cs
    → page_size ≤ 24 + total (without key cs) + required key val
    → t.root < t.allocated
    → t.allocated < 2 ^ 32
    → 34 + length (pivot_of (without key cs)) ≤ page_size
    → ((kv_put (suc fuel) t key val).1 ≡ ok)
      × ((j : List ℕ)
          → kv_get (suc (suc fuel)) (kv_put (suc fuel) t key val).0 j
            ≡ (if bytes_eq key j then some none else kv_get (suc fuel) t j))
put_at_full_root fuel t key val cs h sorted full lt small fits = (
  ap (λ r. r.1) (kv_put_full fuel t key val cs h full),
  λ j.
      ap (λ r. kv_get (suc (suc fuel)) r.0 j) (kv_put_full fuel t key val cs h full)
      ∙ get-after_split fuel t key val cs h full sorted lt small fits j
      ∙ ground (
        arith,
        lookup-without key j cs,
        kv_get-Holds (suc fuel) t j t.root cs (find_leaf_leaf fuel t t.root j h.leaf) h,
      ),
)
