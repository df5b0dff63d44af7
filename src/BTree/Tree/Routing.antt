-- ===== src/BTree/Tree/Routing.antt =====
-- FindLeaf and Insert when one leaf of the tree is replaced.
use ultimate_db.Prelude.{
  ◌<◌, ℕ, zero, suc, ◌≡◌, refl, ◌∙◌, ap, true, false, some, List, arith, nat_eq, Bool-cases, inl,
  inr, nat_eq_iff,
}
use ultimate_db.Memory.{Memory}
use ultimate_db.BTree.{page_type, page_type_leaf, page_type_internal, is_safe_for_insert}
use ultimate_db.BTree.Leaf.{required, insert_into_leaf}
use ultimate_db.BTree.Inner.{find_child_in_internal_node}
use ultimate_db.BTree.Tree.{Tree, ok, set_page, find_leaf, tree_insert}

pub set_page_same : (t : Tree) (id : ℕ) (m : Memory) → (set_page t id m).pages id ≡ m
unfolding set_page
set_page_same t id m = ground (arith, nat_eq_iff id id)

pub set_page_other :
    (t : Tree) (id i : ℕ) (m : Memory) → nat_eq i id ≡ false → (set_page t id m).pages i ≡ t.pages i
unfolding set_page
set_page_other t id i m h = rw h

pub find_leaf_inner :
    (fuel : ℕ) (t : Tree) (from : ℕ) (key : List ℕ) (child : ℕ)
    → page_type (t.pages from) ≡ page_type_internal
    → find_child_in_internal_node (t.pages from) key ≡ child
    → find_leaf (suc fuel) t from key ≡ find_leaf fuel t child key
unfolding find_leaf
find_leaf_inner fuel t from key child e e' =
    ground (arith, e) ∙ ap (λ id. find_leaf fuel t id key) e'

pub find_leaf_leaf :
    (fuel : ℕ) (t : Tree) (from : ℕ) (key : List ℕ)
    → page_type (t.pages from) ≡ page_type_leaf
    → find_leaf (suc fuel) t from key ≡ some from
unfolding find_leaf
find_leaf_leaf fuel t from key e = ground (arith, e)

-- The walk does not look at the cells of a leaf.
pub find_leaf-set_page :
    (fuel : ℕ) (t : Tree) (id : ℕ) (m : Memory) (from : ℕ) (key : List ℕ)
    → page_type (t.pages id) ≡ page_type_leaf
    → page_type m ≡ page_type_leaf
    → find_leaf fuel (set_page t id m) from key ≡ find_leaf fuel t from key
unfolding find_leaf
find_leaf-set_page zero t id m from key h h' = refl
find_leaf-set_page (suc fuel) t id m from key h h' = elim (Bool-cases (nat_eq from id)) [
  | inl e ↦ ground (arith, e, nat_eq_iff from id, set_page_same t id m, h, h')
  | inr e ↦ ground (
    arith,
    set_page_other t id from m e,
    find_leaf-set_page fuel t id m (find_child_in_internal_node (t.pages from) key) key h h',
  )
]

pub find_leaf-set_page_root :
    (fuel : ℕ) (t : Tree) (id : ℕ) (m : Memory) (key : List ℕ)
    → page_type (t.pages id) ≡ page_type_leaf
    → page_type m ≡ page_type_leaf
    → find_leaf fuel (set_page t id m) ((set_page t id m).root) key ≡ find_leaf fuel t t.root key
unfolding set_page
find_leaf-set_page_root fuel t id m key h h' = find_leaf-set_page fuel t id m t.root key h h'

-- A walk ends at a page that is not an inner one.
pub find_leaf-page_type :
    (fuel : ℕ) (t : Tree) (from id : ℕ) (key : List ℕ)
    → find_leaf fuel t from key ≡ some id
    → nat_eq (page_type (t.pages id)) page_type_internal ≡ false
unfolding find_leaf
find_leaf-page_type zero t from id key e = ground (arith, e)
find_leaf-page_type (suc fuel) t from id key e =
    ground
      (arith, e, find_leaf-page_type fuel t (find_child_in_internal_node (t.pages from) key) id key)

-- The optimistic pass of Insert.
pub tree_insert_optimistic :
    (fuel : ℕ) (t : Tree) (key val : List ℕ) (id : ℕ) (m : Memory)
    → find_leaf fuel t t.root key ≡ some id
    → is_safe_for_insert (t.pages id) (required key val) ≡ true
    → insert_into_leaf (t.pages id) key val ≡ (m, true)
    → tree_insert fuel t key val ≡ (set_page t id m, ok)
unfolding tree_insert
tree_insert_optimistic fuel t key val id m e safe put = ground (arith, e, safe, put)

-- Every step down from an inner page lowers the rank.
abbrev pub Ranked : (ℕ → ℕ) → Tree → List ℕ → Type 0
Ranked rank t key =
    (id : ℕ)
    → page_type (t.pages id) ≡ page_type_internal
    → rank (find_child_in_internal_node (t.pages id) key) < rank id

find_leaf_agree :
    (rank : ℕ → ℕ) (t : Tree) (from : ℕ) (key : List ℕ) (fuel fuel' : ℕ)
    → Ranked rank t key
    → rank from < fuel
    → rank from < fuel'
    → find_leaf fuel t from key ≡ find_leaf fuel' t from key
unfolding find_leaf
find_leaf_agree rank t from key zero fuel' down lt lt' = ground (arith, lt)
find_leaf_agree rank t from key (suc fuel) zero down lt lt' = ground (arith, lt')
find_leaf_agree rank t from key (suc fuel) (suc fuel') down lt lt' =
    elim (Bool-cases (nat_eq (page_type (t.pages from)) page_type_internal)) [
      | inl inner ↦
          let less = down from (ground (arith, inner)) in
          rw inner (
            find_leaf_agree rank t (find_child_in_internal_node (t.pages from) key) key fuel fuel'
              down (omega (arith, less)) (omega (arith, less)))
      | inr leaf ↦ rw leaf refl
    ]

find_leaf-some :
    (rank : ℕ → ℕ) (t : Tree) (from : ℕ) (key : List ℕ) (fuel : ℕ)
    → Ranked rank t key
    → rank from < fuel
    → (id : ℕ) × (find_leaf fuel t from key ≡ some id)
unfolding find_leaf
find_leaf-some rank t from key zero down lt = ground (arith, lt)
find_leaf-some rank t from key (suc fuel) down lt =
    elim (Bool-cases (nat_eq (page_type (t.pages from)) page_type_internal)) [
      | inl inner ↦
          let less = down from (ground (arith, inner)) in
          let (id, e) =
            find_leaf-some rank t (find_child_in_internal_node (t.pages from) key) key fuel down
              (omega (arith, less)) in
          (id, rw inner e)
      | inr leaf ↦ (from, rw leaf refl)
    ]

-- In a tree where every step down lowers a rank, the walk of FindLeaf with a fuel above the rank of
-- its start ends, at a page that is not an inner one, and the least such fuel finds the same page.
pub find_leaf_ends :
    (rank : ℕ → ℕ) (t : Tree) (from : ℕ) (key : List ℕ) (fuel : ℕ)
    → Ranked rank t key
    → rank from < fuel
    → (id : ℕ) × (find_leaf fuel t from key ≡ some id)
      × (nat_eq (page_type (t.pages id)) page_type_internal ≡ false)
      × (find_leaf (suc (rank from)) t from key ≡ some id)
find_leaf_ends rank t from key fuel down lt =
    let (id, e) = find_leaf-some rank t from key fuel down lt in
    (
      id,
      e,
      find_leaf-page_type fuel t from id key e,
      find_leaf_agree rank t from key (suc (rank from)) fuel down (omega arith) lt ∙ e,
    )
