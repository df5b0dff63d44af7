-- ===== src/BTree/Tree/Kept.antt =====
-- The steps of Insert keep a tree well-formed: the insertion into a leaf and the two splits.
use mathlib.Core.Path.{subst}
use ultimate_db.Prelude.{
  ℕ, suc, ◌/◌, ◌≤◌, ◌<◌, ◌≡◌, refl, ap, sym, true, List, [], ◌∷◌, ◌++◌, length, arith, inl, inr,
  All, nat_eq, nat_eq_iff, Bool-cases, bytes_eq,
}
use ultimate_db.Bytes.{bytes_lt}
use ultimate_db.Memory.{Memory}
use ultimate_db.BTree.{Cell, page_type, page_type_internal}
use ultimate_db.BTree.Leaf.{insert_into_leaf}
use ultimate_db.BTree.Leaf.Find.{without}
use ultimate_db.BTree.Leaf.Place.{insert_cell}
use ultimate_db.BTree.Leaf.Insert.{has_room, inserted, insert_into_leaf-Holds}
use ultimate_db.BTree.Leaf.Sorted.{Sorted, without-Sorted, insert_cell-Sorted}
use ultimate_db.BTree.Tree.{Tree, Halves, set_page, new_page, halve_leaf, key_or_nil}
use ultimate_db.BTree.Tree.Halving.{first_key, take-drop}
use ultimate_db.BTree.Tree.Split.{lower, upper, halve_leaf-Holds, left_page-Holds, right_page-Holds}
use ultimate_db.BTree.Tree.Formed.{
  max_key, LeafFormed, TreeFormed, set_page-TreeFormed, new_page-TreeFormed,
}

-- The parts of a list have what all of its elements have.
pub All-append {ℓ κ} :
    {A : Type ℓ} (P : A → Type κ) (xs ys : List A) → All P (xs ++ ys) → All P xs × All P ys
All-append P [] ys h = (tt, h)
All-append P (x ∷ xs) ys h = let (a, b) = All-append P xs ys h.1 in ((h.0, a), b)

Sorted-append : (xs ys : List Cell) → Sorted (xs ++ ys) → Sorted xs × Sorted ys
Sorted-append [] ys h = (tt, h)
Sorted-append (x ∷ xs) ys h =
    let (a, b) = Sorted-append xs ys h.1 in
    (((All-append (λ d. bytes_lt x.key d.key ≡ true) xs ys h.0).0, a), b)

abbrev pub Short : Cell → Type 0
Short c = length c.key ≤ max_key

pub without-Short : (key : List ℕ) (cs : List Cell) → All Short cs → All Short (without key cs)
unfolding without
without-Short key [] h = tt
without-Short key (c ∷ cs) h = elim (Bool-cases (bytes_eq key c.key)) [
  | inl e ↦ rw e (without-Short key cs h.1)
  | inr e ↦ rw e (h.0, without-Short key cs h.1)
]

insert_cell-Short :
    (c : Cell) (cs : List Cell) → Short c → All Short cs → All Short (insert_cell c cs)
unfolding insert_cell
insert_cell-Short c [] lt h = (lt, tt)
insert_cell-Short c (d ∷ cs) lt h = elim (Bool-cases (bytes_lt c.key d.key)) [
  | inl e ↦ rw e (lt, h)
  | inr e ↦ rw e (h.0, insert_cell-Short c cs lt h.1)
]

inserted-Formed :
    (cs : List Cell) (key val : List ℕ)
    → length key ≤ max_key
    → Sorted cs
    → All Short cs
    → Sorted (inserted cs key val) × All Short (inserted cs key val)
inserted-Formed cs key val lt s h = elim (Bool-cases (has_room cs key val)) [
  | inl e ↦ rw e (
    insert_cell-Sorted (record { key = key; value = val }) cs s,
    insert_cell-Short (record { key = key; value = val }) (without key cs) lt
        (without-Short key cs h),
  )
  | inr e ↦ rw e (without-Sorted key cs s, without-Short key cs h)
]

-- insertIntoLeaf, whether it finds room or not.
pub insert_into_leaf-LeafFormed :
    (m : Memory) (key val : List ℕ)
    → length key ≤ max_key
    → LeafFormed m
    → LeafFormed (insert_into_leaf m key val).0
insert_into_leaf-LeafFormed m key val lt (cs, h, s, small) =
    let (m', put, h', kept) = insert_into_leaf-Holds m cs key val h in
    let (s', small') = inserted-Formed cs key val lt s small in
    subst LeafFormed (sym (ap (λ r. r.0) put)) (inserted cs key val, h', s', small')

-- What a split leaves, and what it sends up.
pub record SplitFormed (t : Tree) (h : Halves) : Type 0 where
  pub formed : TreeFormed h.tree
  pub one_more : h.tree.allocated ≡ suc t.allocated
  pub right_new : h.right ≡ t.allocated
  pub pivot_short : length h.pivot ≤ max_key
  pub inner_kept :
      (i : ℕ)
      → i < t.allocated
      → page_type (t.pages i) ≡ page_type_internal
      → page_type (h.tree.pages i) ≡ page_type_internal

first-Short : (cs : List Cell) → All Short cs → length (key_or_nil (first_key cs)) ≤ max_key
first-Short [] h = omega arith
first-Short (c ∷ cs) h = h.0

pub halve_leaf-Formed :
    (t : Tree) (id : ℕ) → TreeFormed t → LeafFormed (t.pages id) → SplitFormed t (halve_leaf t id)
unfolding set_page new_page
halve_leaf-Formed t id f (cs, h, s, small) =
    let (s₁, s₂) =
      Sorted-append (lower cs) (upper cs) (subst Sorted (sym (take-drop (length cs / 2) cs)) s) in
    let (a₁, a₂) =
      All-append Short (lower cs) (upper cs)
        (subst (All Short) (sym (take-drop (length cs / 2) cs)) small) in
    subst (SplitFormed t) (sym (halve_leaf-Holds t id cs h)) (record {
      formed =
          set_page-TreeFormed _ id _
            (new_page-TreeFormed t _ f (inl (upper cs, right_page-Holds t id cs h, s₂, a₂)))
            (inl (lower cs, left_page-Holds t id cs h, s₁, a₁));
      one_more = refl;
      right_new = refl;
      pivot_short = first-Short (upper cs) a₂;
      inner_kept = λ i lt e. elim (Bool-cases (nat_eq i id)) [
        | inl same ↦
            ground (arith, e, h.leaf, ap (λ k. page_type (t.pages k)) ((nat_eq_iff i id).0 same))
        | inr other ↦ ground (arith, e, other, lt)
      ];
    })
