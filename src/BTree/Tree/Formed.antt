-- ===== src/BTree/Tree/Formed.antt =====
-- The well-formed trees: every page of the device is a leaf that holds cells whose keys ascend, or
-- an inner page that holds entries whose children are pages of the device. Keys are short enough
-- for an inner page to have room for one of them.
use mathlib.Core.Path.{subst}
use ultimate_db.Prelude.{
  ℕ, zero, suc, ◌≤◌, ◌<◌, ◌≡◌, sym, true, false, some, List, [], ◌∷◌, length, ◌⊎◌, arith, inl, inr,
  All, nat_eq, Bool-cases,
}
use ultimate_db.Bytes.{bytes_lt}
use ultimate_db.Memory.{Memory}
use ultimate_db.BTree.{Cell, page_type, page_type_internal}
use ultimate_db.BTree.Leaf.Cells.{Holds}
use ultimate_db.BTree.Leaf.Sorted.{Sorted}
use ultimate_db.BTree.Inner.{Entry, find_child_in_internal_node}
use ultimate_db.BTree.Inner.Entries.{InnerHolds, route, find_child-route}
use ultimate_db.BTree.Tree.{Tree, set_page, new_page, find_leaf}

abbrev pub max_key : ℕ
max_key = 32000

abbrev pub LeafFormed : Memory → Type 0
LeafFormed m = (cs : List Cell) × Holds m cs × Sorted cs × All (λ c. length c.key ≤ max_key) cs

abbrev pub EntryFormed : ℕ → Entry → Type 0
EntryFormed n e = (e.child < n) × (length e.key ≤ max_key)

abbrev pub InnerFormed : ℕ → Memory → Type 0
InnerFormed n m =
    (es : List Entry) × (last : ℕ) × InnerHolds m es last × All (EntryFormed n) es × (last < n)

abbrev pub PageFormed : ℕ → Memory → Type 0
PageFormed n m = LeafFormed m ⊎ InnerFormed n m

pub record TreeFormed (t : Tree) : Type 0 where
  pub root_there : t.root < t.allocated
  pub pages_formed : (id : ℕ) → id < t.allocated → PageFormed t.allocated (t.pages id)

All-EntryFormed-mono :
    (n k : ℕ) (es : List Entry) → n ≤ k → All (EntryFormed n) es → All (EntryFormed k) es
All-EntryFormed-mono n k [] le h = tt
All-EntryFormed-mono n k (e ∷ es) le h =
    ((omega (arith, h.0.0), h.0.1), All-EntryFormed-mono n k es le h.1)

pub PageFormed-mono : (n k : ℕ) (m : Memory) → n ≤ k → PageFormed n m → PageFormed k m
PageFormed-mono n k m le (inl leaf) = inl leaf
PageFormed-mono n k m le (inr (es, last, h, small, lt)) =
    inr (es, last, h, All-EntryFormed-mono n k es le small, omega (arith, lt))

pub set_page-TreeFormed :
    (t : Tree) (id : ℕ) (m : Memory)
    → TreeFormed t
    → PageFormed t.allocated m
    → TreeFormed (set_page t id m)
unfolding set_page
set_page-TreeFormed t id m f p = record {
  root_there = f.root_there;
  pages_formed = λ i lt. elim (Bool-cases (nat_eq i id)) [
    | inl e ↦ rw e p
    | inr e ↦ rw e (f.pages_formed i lt)
  ];
}

-- A new page that is formed.
pub new_page-TreeFormed :
    (t : Tree) (m : Memory)
    → TreeFormed t
    → PageFormed (suc t.allocated) m
    → TreeFormed (set_page (new_page t).0 t.allocated m)
unfolding set_page new_page
new_page-TreeFormed t m f p = record {
  root_there = omega (arith, f.root_there);
  pages_formed = λ i lt. elim (Bool-cases (nat_eq i t.allocated)) [
    | inl e ↦ rw e p
    | inr e ↦ rw e (
        PageFormed-mono t.allocated (suc t.allocated) (t.pages i) (omega arith)
          (f.pages_formed i (ground (arith, lt, e))))
  ];
}

route-Formed :
    (n : ℕ) (key : List ℕ) (es : List Entry) (last : ℕ)
    → All (EntryFormed n) es
    → last < n
    → route key es last < n
unfolding route
route-Formed n key [] last h lt = lt
route-Formed n key (e ∷ es) last h lt = elim (Bool-cases (bytes_lt key e.key)) [
  | inl b ↦ rw b h.0.0
  | inr b ↦ rw b (route-Formed n key es last h.1 lt)
]

pub find_child-Formed :
    (n : ℕ) (m : Memory) (key : List ℕ) → InnerFormed n m → find_child_in_internal_node m key < n
find_child-Formed n m key (es, last, h, small, lt) =
    subst (λ i. i < n) (sym (find_child-route m key es last h))
      (route-Formed n key es last small lt)

pub leaf_of :
    (n : ℕ) (m : Memory)
    → PageFormed n m
    → nat_eq (page_type m) page_type_internal ≡ false
    → LeafFormed m
leaf_of n m (inl leaf) e = leaf
leaf_of n m (inr (es, last, h, small, lt)) e = ground (arith, h.inner, e)

pub inner_of :
    (n : ℕ) (m : Memory)
    → PageFormed n m
    → nat_eq (page_type m) page_type_internal ≡ true
    → InnerFormed n m
inner_of n m (inl (cs, h, s, small)) e = ground (arith, h.leaf, e)
inner_of n m (inr inner) e = inner

-- The walk of FindLeaf ends at a leaf of the device.
pub find_leaf-TreeFormed :
    (fuel : ℕ) (t : Tree) (from id : ℕ) (key : List ℕ)
    → TreeFormed t
    → from < t.allocated
    → find_leaf fuel t from key ≡ some id
    → (id < t.allocated) × LeafFormed (t.pages id)
unfolding find_leaf
find_leaf-TreeFormed zero t from id key f lt e = ground (arith, e)
find_leaf-TreeFormed (suc fuel) t from id key f lt e =
    elim (Bool-cases (nat_eq (page_type (t.pages from)) page_type_internal)) [
      | inl inner ↦
          find_leaf-TreeFormed fuel t (find_child_in_internal_node (t.pages from) key) id key f
            (find_child-Formed t.allocated (t.pages from) key
              (inner_of t.allocated (t.pages from) (f.pages_formed from lt) inner))
            (ground (arith, inner, e))
      | inr leaf ↦
          let same : from ≡ id = ground (arith, leaf, e) in
          (
            subst (λ i. i < t.allocated) same lt,
            subst (λ i. LeafFormed (t.pages i)) same
                (leaf_of t.allocated (t.pages from) (f.pages_formed from lt) leaf),
          )
    ]
