-- ===== src/BTree/Tree/InsertKept.antt =====
-- Insert keeps a tree well-formed, on every branch.
use mathlib.Core.Path.{subst}
use ultimate_db.Prelude.{
  ℕ, zero, suc, ◌+◌, ◌≤◌, ◌<◌, ◌^◌, ◌≡◌, ◌∙◌, ap, sym, true, false, none, some, List, [], ◌∷◌,
  length, arith, inl, inr, All, nat_eq, nat_eq_iff, Bool-cases, Option-cases,
}
use ultimate_db.Memory.{Memory}
use ultimate_db.BTree.{page_type, page_type_leaf, page_type_internal, is_safe_for_insert}
use ultimate_db.BTree.Leaf.{insert_into_leaf, required}
use ultimate_db.BTree.Inner.{find_child_in_internal_node}
use ultimate_db.BTree.Tree.{
  Tree, lost, set_page, find_leaf, halve_leaf, split_leaf, descend, insert_or_split,
  pessimistic_insert, tree_insert,
}
use ultimate_db.BTree.Tree.Routing.{set_page_same}
use ultimate_db.BTree.Tree.Formed.{
  max_key, LeafFormed, TreeFormed, set_page-TreeFormed, inner_of, leaf_of, find_child-Formed,
  find_leaf-TreeFormed,
}
use ultimate_db.BTree.Tree.Kept.{insert_into_leaf-LeafFormed, halve_leaf-Formed}
use ultimate_db.BTree.Tree.Climb.{InnerPage, All-map, promote-Formed}

LeafFormed-page_type : (m : Memory) → LeafFormed m → page_type m ≡ page_type_leaf
LeafFormed-page_type m (cs, h, s, small) = h.leaf

-- An inner page is not the leaf that is replaced.
set_leaf-InnerPage :
    (t : Tree) (id : ℕ) (m : Memory) (i : ℕ)
    → page_type (t.pages id) ≡ page_type_leaf
    → InnerPage t i
    → InnerPage (set_page t id m) i
unfolding set_page
set_leaf-InnerPage t id m i leaf (lt, inner) = elim (Bool-cases (nat_eq i id)) [
  | inl same ↦
      ground (arith, leaf, inner, ap (λ k. page_type (t.pages k)) ((nat_eq_iff i id).0 same))
  | inr other ↦ (lt, ground (arith, other, inner))
]

split_leaf-Formed :
    (t : Tree) (leaf : ℕ) (above : List ℕ)
    → TreeFormed t
    → leaf < t.allocated
    → LeafFormed (t.pages leaf)
    → All (InnerPage t) above
    → t.allocated + length above < 2 ^ 32
    → TreeFormed (split_leaf t (leaf ∷ above)).0
unfolding split_leaf
split_leaf-Formed t leaf above f lt page inner le =
    let s = halve_leaf-Formed t leaf f page in
    promote-Formed (halve_leaf t leaf).tree (halve_leaf t leaf).right (halve_leaf t leaf).pivot leaf
      above s.formed (omega (arith, s.one_more, lt)) (omega (arith, s.one_more, s.right_new))
      (omega (arith, s.one_more, le)) s.pivot_short
      (All-map (InnerPage t) (InnerPage (halve_leaf t leaf).tree) above
        (λ i p. (omega (arith, s.one_more, p.0), s.inner_kept i p.0 p.1)) inner)

insert_or_split-Formed :
    (t : Tree) (key val : List ℕ) (leaf : ℕ) (above : List ℕ)
    → TreeFormed t
    → length key ≤ max_key
    → leaf < t.allocated
    → LeafFormed (t.pages leaf)
    → All (InnerPage t) above
    → t.allocated + length above < 2 ^ 32
    → TreeFormed (insert_or_split t key val (leaf ∷ above)).0
unfolding insert_or_split set_page
insert_or_split-Formed t key val leaf above f short lt page inner le =
    let m = (insert_into_leaf (t.pages leaf) key val).0 in
    let page' = insert_into_leaf-LeafFormed (t.pages leaf) key val short page in
    let f' = set_page-TreeFormed t leaf m f (inl page') in
    elim (Bool-cases (insert_into_leaf (t.pages leaf) key val).1) [
      | inl done ↦ rw done f'
      | inr full ↦ rw full (
          split_leaf-Formed (set_page t leaf m) leaf above f' lt
            (subst LeafFormed (sym (set_page_same t leaf m)) page')
            (All-map (InnerPage t) (InnerPage (set_page t leaf m)) above
              (λ i p. set_leaf-InnerPage t leaf m i (LeafFormed-page_type (t.pages leaf) page) p)
              inner)
            le)
    ]

-- The pages that stay locked on the way down: a leaf and inner pages above it.
record Locked (t : Tree) (n : ℕ) (locked : List ℕ) : Type 0 where
  leaf : ℕ
  above : List ℕ
  parts : locked ≡ leaf ∷ above
  there : leaf < t.allocated
  leaf_page : LeafFormed (t.pages leaf)
  inner_pages : All (InnerPage t) above
  few : length above ≤ n

descend-Locked :
    (fuel : ℕ) (t : Tree) (id : ℕ) (rest : List ℕ) (key : List ℕ) (bytes : ℕ) (locked : List ℕ)
    → TreeFormed t
    → id < t.allocated
    → All (InnerPage t) rest
    → descend fuel t id key bytes (id ∷ rest) ≡ some locked
    → Locked t (fuel + length rest) locked
unfolding descend
descend-Locked zero t id rest key bytes locked f lt inner e = ground (arith, e)
descend-Locked (suc fuel) t id rest key bytes locked f lt inner e =
    elim (Bool-cases (nat_eq (page_type (t.pages id)) page_type_internal)) [
      | inl is_inner ↦
          let child = find_child_in_internal_node (t.pages id) key in
          let child_lt =
            find_child-Formed t.allocated (t.pages id) key
              (inner_of t.allocated (t.pages id) (f.pages_formed id lt) is_inner) in
          elim (Bool-cases (is_safe_for_insert (t.pages child) bytes)) [
            | inl safe ↦
                let l =
                  descend-Locked fuel t child [] key bytes locked f child_lt tt
                    (ground (arith, is_inner, safe, e)) in
                record {
                  leaf = l.leaf;
                  above = l.above;
                  parts = l.parts;
                  there = l.there;
                  leaf_page = l.leaf_page;
                  inner_pages = l.inner_pages;
                  few = omega (arith, l.few);
                }
            | inr unsafe ↦
                let l =
                  descend-Locked fuel t child (id ∷ rest) key bytes locked f child_lt
                    ((lt, ground (arith, is_inner)), inner) (ground (arith, is_inner, unsafe, e)) in
                record {
                  leaf = l.leaf;
                  above = l.above;
                  parts = l.parts;
                  there = l.there;
                  leaf_page = l.leaf_page;
                  inner_pages = l.inner_pages;
                  few = omega (arith, l.few);
                }
          ]
      | inr is_leaf ↦ record {
        leaf = id;
        above = rest;
        parts = ground (arith, is_leaf, e);
        there = lt;
        leaf_page = leaf_of t.allocated (t.pages id) (f.pages_formed id lt) is_leaf;
        inner_pages = inner;
        few = omega arith;
      }
    ]

module _ (fuel : ℕ) (t : Tree) (key val : List ℕ) where
  pessimistic_insert_lost :
      descend fuel t t.root key (required key val) (t.root ∷ []) ≡ none
      → pessimistic_insert fuel t key val ≡ (t, lost)
  unfolding pessimistic_insert
  pessimistic_insert_lost e = ground (arith, e)

  pessimistic_insert_locked :
      (locked : List ℕ)
      → descend fuel t t.root key (required key val) (t.root ∷ []) ≡ some locked
      → pessimistic_insert fuel t key val ≡ insert_or_split t key val locked
  unfolding pessimistic_insert
  pessimistic_insert_locked locked e = ground (arith, e)

  tree_insert_lost : find_leaf fuel t t.root key ≡ none → tree_insert fuel t key val ≡ (t, lost)
  unfolding tree_insert
  tree_insert_lost e = ground (arith, e)

  tree_insert_safe :
      (leaf : ℕ)
      → find_leaf fuel t t.root key ≡ some leaf
      → is_safe_for_insert (t.pages leaf) (required key val) ≡ true
      → (tree_insert fuel t key val).0 ≡ set_page t leaf (insert_into_leaf (t.pages leaf) key val).0
  unfolding tree_insert
  tree_insert_safe leaf e safe = ground (arith, e, safe)

  tree_insert_unsafe :
      (leaf : ℕ)
      → find_leaf fuel t t.root key ≡ some leaf
      → is_safe_for_insert (t.pages leaf) (required key val) ≡ false
      → tree_insert fuel t key val ≡ pessimistic_insert fuel t key val
  unfolding tree_insert
  tree_insert_unsafe leaf e full = ground (arith, e, full)

pessimistic_insert-Formed :
    (fuel : ℕ) (t : Tree) (key val : List ℕ)
    → TreeFormed t
    → length key ≤ max_key
    → t.allocated + fuel < 2 ^ 32
    → TreeFormed (pessimistic_insert fuel t key val).0
pessimistic_insert-Formed fuel t key val f short le =
    elim (Option-cases (descend fuel t t.root key (required key val) (t.root ∷ []))) [
      | inl lost_walk ↦
          subst (λ r. TreeFormed r.0) (sym (pessimistic_insert_lost fuel t key val lost_walk)) f
      | inr (locked, e) ↦
          let l =
            descend-Locked fuel t t.root [] key (required key val) locked f f.root_there tt e in
          subst (λ r. TreeFormed r.0)
            (sym
              (pessimistic_insert_locked fuel t key val (l.leaf ∷ l.above) (e ∙ ap some l.parts)))
            (insert_or_split-Formed t key val l.leaf l.above f short l.there l.leaf_page
              l.inner_pages (omega (arith, l.few, le)))
    ]

-- Insert keeps a tree well-formed, whether the leaf has room or is split, inner pages are split, a
-- new root is made, or the insert panics.
pub tree_insert-TreeFormed :
    (fuel : ℕ) (t : Tree) (key val : List ℕ)
    → TreeFormed t
    → length key ≤ max_key
    → t.allocated + fuel < 2 ^ 32
    → TreeFormed (tree_insert fuel t key val).0
tree_insert-TreeFormed fuel t key val f short le =
    elim (Option-cases (find_leaf fuel t t.root key)) [
      | inl lost_walk ↦
          subst (λ r. TreeFormed r.0) (sym (tree_insert_lost fuel t key val lost_walk)) f
      | inr (leaf, e) ↦
          let (lt, page) = find_leaf-TreeFormed fuel t t.root leaf key f f.root_there e in
          elim (Bool-cases (is_safe_for_insert (t.pages leaf) (required key val))) [
            | inl safe ↦ subst TreeFormed (sym (tree_insert_safe fuel t key val leaf e safe)) (
                set_page-TreeFormed t leaf (insert_into_leaf (t.pages leaf) key val).0 f
                  (inl (insert_into_leaf-LeafFormed (t.pages leaf) key val short page)))
            | inr full ↦
                subst (λ r. TreeFormed r.0) (sym (tree_insert_unsafe fuel t key val leaf e full))
                  (pessimistic_insert-Formed fuel t key val f short le)
          ]
    ]
