-- ===== src/BTree/Tree/Split.antt =====
-- Insert at a root that is a full leaf: SplitLeaf and the new root.
use mathlib.Core.Path.{subst}
use ultimate_db.Prelude.{
  ℕ, suc, ◌+◌, ◌/◌, ◌≤◌, ◌<◌, ◌^◌, ◌≡◌, refl, ◌∙◌, ap, sym, Option, some, List, [], ◌∷◌, length,
  arith, inl, inr, Bool-cases, nat_eq_iff, if◌then◌else◌, take, drop, length-take,
}
use ultimate_db.Bytes.{bytes_lt}
use ultimate_db.Memory.{Memory}
use ultimate_db.Page.{page_size}
use ultimate_db.BTree.{Cell, num_cells, btree_header_size, page_type}
use ultimate_db.BTree.Leaf.Cells.{total, Holds}
use ultimate_db.BTree.Inner.{find_child_in_internal_node}
use ultimate_db.BTree.Tree.{
  Tree, ok, Halves, set_page, new_page, find_leaf, leaf_mid, key_or_nil, left_leaf, right_leaf,
  halve_leaf, root_page, grow_root, promote, split_leaf,
}
use ultimate_db.BTree.Tree.Halving.{
  first_key, take-drop, leaf_mid-CellsAt, left_leaf-Holds, right_leaf-Holds,
}
use ultimate_db.BTree.Tree.Root.{root_page-InnerHolds, find_child-root_page}
use ultimate_db.BTree.Tree.Routing.{find_leaf_inner, find_leaf_leaf}

abbrev middle : List Cell → ℕ
middle cs = length cs / 2

abbrev pub lower : List Cell → List Cell
lower cs = take (middle cs) cs

abbrev pub upper : List Cell → List Cell
upper cs = drop (middle cs) cs

-- The key that is sent up: the first of the upper half.
abbrev pub pivot_of : List Cell → List ℕ
pivot_of cs = key_or_nil (first_key (upper cs))

abbrev halved : Tree → ℕ → ℕ → Option (List ℕ) × ℕ → Halves
halved t id n at =
    let fresh = (new_page t).0 in
    record {
      tree =
          set_page
            (set_page fresh t.allocated
              (right_leaf (fresh.pages t.allocated) (t.pages id) (n / 2) at.1))
            id (left_leaf (t.pages id) t.allocated (n / 2) at.1);
      right = t.allocated;
      pivot = key_or_nil at.0;
    }

halve_leaf-halved :
    (t : Tree) (id : ℕ)
    → halve_leaf t id
      ≡ halved t id (num_cells (t.pages id)) (
          leaf_mid
            (t.pages id)
            (num_cells (t.pages id) / 2)
            (num_cells (t.pages id))
            btree_header_size)
unfolding halve_leaf new_page
halve_leaf-halved t id = refl

module _ (t : Tree) (id : ℕ) (cs : List Cell) (h : Holds (t.pages id) cs) where
  abbrev pub fresh : Memory
  fresh = (new_page t).0.pages t.allocated

  abbrev pub left_page : Memory
  left_page = left_leaf (t.pages id) t.allocated (length (lower cs)) (24 + total (lower cs))

  abbrev pub right_page : Memory
  right_page = right_leaf fresh (t.pages id) (length (lower cs)) (24 + total (lower cs))

  pub left_page-Holds : Holds left_page (lower cs)
  left_page-Holds =
      left_leaf-Holds fresh (t.pages id) t.allocated (lower cs) (upper cs)
        (subst (Holds (t.pages id)) (sym (take-drop (middle cs) cs)) h)

  pub right_page-Holds : Holds right_page (upper cs)
  right_page-Holds =
      right_leaf-Holds fresh (t.pages id) t.allocated (lower cs) (upper cs)
        (subst (Holds (t.pages id)) (sym (take-drop (middle cs) cs)) h)

  abbrev pub halves : Halves
  halves = record {
    tree = set_page (set_page ((new_page t).0) t.allocated right_page) id left_page;
    right = t.allocated;
    pivot = pivot_of cs;
  }

  pub halve_leaf-Holds : halve_leaf t id ≡ halves
  halve_leaf-Holds =
      halve_leaf-halved t id
      ∙ ap (λ n. halved t id n (leaf_mid (t.pages id) (n / 2) n btree_header_size)) h.count
      ∙ ap (halved t id (length cs))
          (leaf_mid-CellsAt (t.pages id) (middle cs) 24 cs h.cells h.room)
      ∙ ap
          (λ n. record {
            tree =
                set_page
                  (set_page ((new_page t).0) t.allocated
                    (right_leaf fresh (t.pages id) n (24 + total (lower cs))))
                  id (left_leaf (t.pages id) t.allocated n (24 + total (lower cs)));
            right = t.allocated;
            pivot = pivot_of cs;
          })
          mid_lem
    where
      mid_lem : middle cs ≡ length (lower cs)
      mid_lem = omega (arith, length-take (middle cs) cs)

  -- The tree with a new root above the two halves.
  abbrev pub grown : Tree
  grown = grow_root halves.tree id t.allocated (pivot_of cs)

  pub split_leaf-root : t.root ≡ id → split_leaf t (id ∷ []) ≡ (grown, ok)
  unfolding split_leaf promote set_page new_page
  split_leaf-root e = ground (arith, halve_leaf-Holds, e, nat_eq_iff id id)

  -- `id` is a page of the device.
  module _ (lt : id < t.allocated) where
    grown-root : grown.root ≡ suc t.allocated
    unfolding grow_root new_page set_page
    grown-root = refl

    grown-left : grown.pages id ≡ left_page
    unfolding grow_root new_page set_page
    grown-left = ground (arith, lt)

    grown-right : grown.pages t.allocated ≡ right_page
    unfolding grow_root new_page set_page
    grown-right = ground (arith, lt)

    grown-top :
        (m : Memory) × (grown.pages (suc t.allocated) ≡ root_page m id t.allocated (pivot_of cs))
    unfolding grow_root new_page set_page
    grown-top = ((new_page halves.tree).0.pages (suc t.allocated), ground (arith, lt))

    module _ (small : t.allocated < 2 ^ 32) (fits : 34 + length (pivot_of cs) ≤ page_size) where
      -- Every walk goes to the half of its key.
      pub find_leaf-grown :
          (fuel : ℕ) (key : List ℕ)
          → find_leaf (suc (suc fuel)) grown grown.root key
            ≡ some (if bytes_lt key (pivot_of cs) then id else t.allocated)
      find_leaf-grown fuel key =
          ap (λ r. find_leaf (suc (suc fuel)) grown r key) grown-root
          ∙ find_leaf_inner (suc fuel) grown (suc t.allocated) key
              (if bytes_lt key (pivot_of cs) then id else t.allocated)
              (ap page_type grown-top.1
                ∙ (root_page-InnerHolds grown-top.0 id t.allocated (pivot_of cs) fits (omega arith)
                    small).inner)
              (ap (λ m. find_child_in_internal_node m key) grown-top.1
                ∙ find_child-root_page grown-top.0 id t.allocated (pivot_of cs) fits (omega arith)
                    small key)
          ∙ elim (Bool-cases (bytes_lt key (pivot_of cs))) [
            | inl e ↦
                rw e (
                  find_leaf_leaf fuel grown id key (ap page_type grown-left ∙ left_page-Holds.leaf))
            | inr e ↦ rw e (
                find_leaf_leaf fuel grown t.allocated key
                  (ap page_type grown-right ∙ right_page-Holds.leaf))
          ]

      pub grown-Holds :
          (key : List ℕ)
          → Holds
              (grown.pages (if bytes_lt key (pivot_of cs) then id else t.allocated))
              (if bytes_lt key (pivot_of cs) then lower cs else upper cs)
      grown-Holds key = elim (Bool-cases (bytes_lt key (pivot_of cs))) [
        | inl e ↦ rw e (subst (λ m. Holds m (lower cs)) (sym grown-left) left_page-Holds)
        | inr e ↦ rw e (subst (λ m. Holds m (upper cs)) (sym grown-right) right_page-Holds)
      ]
