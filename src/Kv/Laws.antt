-- ===== src/Kv/Laws.antt =====
-- What a client of the key-value store sees.
use mathlib.Core.Path.{subst}
use ultimate_db.Prelude.{
  ℕ, ◌+◌, ◌<◌, ◌≡◌, refl, ◌∙◌, ap, sym, true, false, Option, none, some, List, [], ◌∷◌, arith,
  nat_eq, if◌then◌else◌, Bool-cases, inl, inr, nat_eq_iff, lt→ltb, bytes_eq, bytes_eq_iff,
  Option-cases,
}
use ultimate_db.Memory.{Memory}
use ultimate_db.Page.{page_size}
use ultimate_db.BTree.{Cell, page_type, page_type_leaf, num_cells, btree_header_size}
use ultimate_db.BTree.Leaf.{required, find_cell}
use ultimate_db.BTree.Leaf.Cells.{cell_size, total, Holds}
use ultimate_db.BTree.Leaf.Find.{locate, without, find_cell-Holds, total-without}
use ultimate_db.BTree.Leaf.Place.{insert_cell}
use ultimate_db.BTree.Leaf.Insert.{is_safe_for_insert-Holds, has_room, insert_into_leaf-Holds}
use ultimate_db.BTree.Leaf.Sorted.{lookup_cell, lookup-insert_cell, lookup-without, Sorted}
use ultimate_db.BTree.Tree.{Tree, ok, set_page, find_leaf}
use ultimate_db.BTree.Tree.Routing.{
  set_page_same, set_page_other, find_leaf-set_page_root, tree_insert_optimistic,
}
use ultimate_db.Kv.{value_of, kv_get, kv_put, Deleted, delete_from_leaf, kv_delete}
use ultimate_db.Kv.Delete.{reply_of, delete_from_leaf-Holds}

locate-lookup :
    (key : List ℕ) (off : ℕ) (cs : List Cell) → value_of (locate key off cs) ≡ lookup_cell key cs
unfolding locate lookup_cell
locate-lookup key off [] = refl
locate-lookup key off (c ∷ cs) = ground (arith, locate-lookup key (off + cell_size c) cs)

-- Get is the lookup in the cells of the leaf.
pub kv_get-Holds :
    (fuel : ℕ) (t : Tree) (key : List ℕ) (id : ℕ) (cs : List Cell)
    → find_leaf fuel t t.root key ≡ some id
    → Holds (t.pages id) cs
    → kv_get fuel t key ≡ some (lookup_cell key cs)
unfolding kv_get
kv_get-Holds fuel t key id cs e h =
    ground (arith, e, find_cell-Holds (t.pages id) key cs h, locate-lookup key 24 cs)

kv_get_lost :
    (fuel : ℕ) (t : Tree) (key : List ℕ)
    → find_leaf fuel t t.root key ≡ none
    → kv_get fuel t key ≡ none
unfolding kv_get
kv_get_lost fuel t key e = ground (arith, e)

abbrev lookup_page : Memory → List ℕ → Option (List ℕ)
lookup_page m key = value_of (find_cell m key (num_cells m) btree_header_size)

kv_get_page :
    (fuel : ℕ) (t : Tree) (i : ℕ) (m : Memory) (j : List ℕ)
    → find_leaf fuel t t.root j ≡ some i
    → t.pages i ≡ m
    → kv_get fuel t j ≡ some (lookup_page m j)
unfolding kv_get
kv_get_page fuel t i m j e same = ground (arith, e) ∙ ap (λ p. some (lookup_page p j)) same

kv_get-set_page_other :
    (fuel : ℕ) (t : Tree) (id i : ℕ) (m : Memory) (j : List ℕ)
    → page_type (t.pages id) ≡ page_type_leaf
    → page_type m ≡ page_type_leaf
    → find_leaf fuel t t.root j ≡ some i
    → nat_eq i id ≡ false
    → kv_get fuel (set_page t id m) j ≡ kv_get fuel t j
kv_get-set_page_other fuel t id i m j h h' e other =
    kv_get_page fuel (set_page t id m) i (t.pages i) j
      (find_leaf-set_page_root fuel t id m j h h' ∙ e) (set_page_other t id i m other)
    ∙ sym (kv_get_page fuel t i (t.pages i) j e refl)

-- A client sees a leaf that is replaced as the map of its new cells.
pub kv_get-set_page :
    (fuel : ℕ) (t : Tree) (id : ℕ) (m : Memory) (cs cs' : List Cell) (key : List ℕ)
    (new : Option (List ℕ))
    → find_leaf fuel t t.root key ≡ some id
    → Holds (t.pages id) cs
    → Holds m cs'
    → ((j : List ℕ) → lookup_cell j cs' ≡ (if bytes_eq key j then new else lookup_cell j cs))
    → (j : List ℕ)
    → kv_get fuel (set_page t id m) j ≡ (if bytes_eq key j then some new else kv_get fuel t j)
kv_get-set_page fuel t id m cs cs' key new e h h' law j =
    elim (Option-cases (find_leaf fuel t t.root j)) [
      | inl away ↦ ground (
        arith,
        e,
        away,
        bytes_eq_iff key j,
        kv_get_lost fuel t j away,
        kv_get_lost fuel (set_page t id m) j
            (find_leaf-set_page_root fuel t id m j h.leaf h'.leaf ∙ away),
      )
      | inr (i, here) ↦ elim (Bool-cases (nat_eq i id)) [
        | inl same ↦ ground (
          arith,
          law j,
          kv_get-Holds fuel t j id cs (here ∙ ap some ((nat_eq_iff i id).0 same)) h,
          kv_get-Holds fuel (set_page t id m) j id cs'
              (find_leaf-set_page_root fuel t id m j h.leaf h'.leaf
                ∙ here
                ∙ ap some ((nat_eq_iff i id).0 same))
              (subst (λ p. Holds p cs') (sym (set_page_same t id m)) h'),
        )
        | inr other ↦ ground (
          arith,
          e,
          here,
          other,
          bytes_eq_iff key j,
          nat_eq_iff i id,
          kv_get-set_page_other fuel t id i m j h.leaf h'.leaf here other,
        )
      ]
    ]

has_room_enough :
    (key val : List ℕ) (cs : List Cell)
    → 24 + total cs + required key val < page_size
    → has_room cs key val ≡ true
unfolding has_room
has_room_enough key val cs lt = lt→ltb _ _ (omega (arith, total-without key cs))

-- A put that finds room replaces the leaf of its key.
pub put-leaf :
    (fuel : ℕ) (t : Tree) (key val : List ℕ) (id : ℕ) (cs : List Cell)
    → find_leaf fuel t t.root key ≡ some id
    → Holds (t.pages id) cs
    → 24 + total cs + required key val < page_size
    → (m : Memory) × (kv_put fuel t key val ≡ (set_page t id m, ok))
      × Holds m (insert_cell (record { key = key; value = val }) (without key cs))
unfolding kv_put
put-leaf fuel t key val id cs e h room =
    let (m, put, h', kept) = insert_into_leaf-Holds (t.pages id) cs key val h in
    let fits = has_room_enough key val cs room in
    (
      m,
      tree_insert_optimistic fuel t key val id m e
          (is_safe_for_insert-Holds (t.pages id) cs (required key val) h ∙ lt→ltb _ _ room)
          (put ∙ ap (λ b. (m, b)) fits),
      subst (Holds m)
          (ap
            (λ b.
              if b
              then insert_cell (record { key = key; value = val }) (without key cs)
              else without key cs)
            fits)
          h',
    )

-- A put that finds room in the leaf of its key succeeds, and a client then sees the new value of
-- its key and the old values of all others, whatever the shape of the tree.
pub get-put :
    (fuel : ℕ) (t : Tree) (key val : List ℕ) (id : ℕ) (cs : List Cell)
    → find_leaf fuel t t.root key ≡ some id
    → Holds (t.pages id) cs
    → 24 + total cs + required key val < page_size
    → ((kv_put fuel t key val).1 ≡ ok)
      × ((j : List ℕ)
          → kv_get fuel (kv_put fuel t key val).0 j
            ≡ (if bytes_eq key j then some (some val) else kv_get fuel t j))
get-put fuel t key val id cs e h room =
    let (m, done, h') = put-leaf fuel t key val id cs e h room in
    (
      ap (λ r. r.1) done,
      λ j.
          ap (λ r. kv_get fuel r.0 j) done
          ∙ kv_get-set_page fuel t id m cs
              (insert_cell (record { key = key; value = val }) (without key cs)) key (some val) e h
              h' (λ i. lookup-insert_cell (record { key = key; value = val }) i cs) j,
    )

pub kv_delete_found :
    (fuel : ℕ) (t : Tree) (key : List ℕ) (id : ℕ) (m : Memory) (r : Deleted)
    → find_leaf fuel t t.root key ≡ some id
    → delete_from_leaf (t.pages id) key ≡ (m, r)
    → kv_delete fuel t key ≡ some (set_page t id m, r)
unfolding kv_delete
kv_delete_found fuel t key id m r e d = ground (arith, e, d)

-- Delete in a leaf whose keys ascend: a client then sees no value of the key and the old values of
-- all others, and the reply says whether there was one.
pub get-delete :
    (fuel : ℕ) (t : Tree) (key : List ℕ) (id : ℕ) (cs : List Cell)
    → find_leaf fuel t t.root key ≡ some id
    → Holds (t.pages id) cs
    → Sorted cs
    → (t' : Tree) × (kv_delete fuel t key ≡ some (t', reply_of (lookup_cell key cs)))
      × ((j : List ℕ) → kv_get fuel t' j ≡ (if bytes_eq key j then some none else kv_get fuel t j))
get-delete fuel t key id cs e h sorted =
    let (m, gone, h', kept) = delete_from_leaf-Holds (t.pages id) key cs h sorted in
    (
      set_page t id m,
      kv_delete_found fuel t key id m (reply_of (lookup_cell key cs)) e gone,
      kv_get-set_page fuel t id m cs (without key cs) key none e h h'
          (λ i. lookup-without key i cs),
    )
