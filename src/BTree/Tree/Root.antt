-- ===== src/BTree/Tree/Root.antt =====
-- The new root of promoteToParent.
use ultimate_db.Prelude.{
  ℕ, ◌+◌, ◌≤◌, ◌<◌, ◌^◌, ◌≡◌, ◌∙◌, List, [], ◌∷◌, length, arith, inl, inr, if◌then◌else◌,
}
use ultimate_db.Bytes.{bytes_lt}
use ultimate_db.Memory.{Memory, get_word-ext, get-put_self}
use ultimate_db.Page.{page_size}
use ultimate_db.BTree.{
  page_type, page_type_internal, set_page_type, btree_init, num_cells, set_num_cells,
}
use ultimate_db.BTree.Leaf.Delete.{num_cells-set, set_num_cells-outside}
use ultimate_db.BTree.Inner.{put_entry, find_child_in_internal_node}
use ultimate_db.BTree.Inner.Entries.{InnerHolds, EntryAt-Moved, route, find_child-route}
use ultimate_db.BTree.Inner.Place.{
  put_entry-EntryAt, put_entry-outside, rightmost-set, set_rightmost-outside,
}
use ultimate_db.BTree.Tree.{root_page}

module _ (fresh : Memory) (left right : ℕ) (pivot : List ℕ) where
  abbrev typed : Memory
  typed = set_page_type (btree_init fresh) page_type_internal

  abbrev counted : Memory
  counted = set_num_cells typed 1

  abbrev page : Memory
  page = root_page fresh left right pivot

  header_kept : (i : ℕ) → i < 20 → page i ≡ counted i
  unfolding root_page
  header_kept i lt =
      set_rightmost-outside _ right i (inl lt)
      ∙ put_entry-outside counted 24 pivot left i (inl (omega arith))

  root_type : page_type page ≡ page_type_internal
  unfolding page_type set_page_type
  root_type =
      get_word-ext 2 0
        (λ i a b. header_kept i (omega arith) ∙ set_num_cells-outside typed 1 i (inl (omega arith)))
      ∙ get-put_self 2 (btree_init fresh) 0 page_type_internal (omega arith)

  root_count : num_cells page ≡ 1
  unfolding num_cells
  root_count =
      get_word-ext 2 2 (λ i a b. header_kept i (omega arith)) ∙ num_cells-set typed 1 ∙ omega arith

  pub root_page-InnerHolds :
      34 + length pivot ≤ page_size
      → left < 2 ^ 64
      → right < 2 ^ 32
      → InnerHolds page (record { child = left; key = pivot } ∷ []) right
  unfolding root_page
  root_page-InnerHolds fits lt lt' = record {
    inner = root_type;
    count = root_count;
    room = omega arith;
    entries = (
      EntryAt-Moved (put_entry counted 24 pivot left) page 24 24
          (record { child = left; key = pivot })
          (λ j lt''. set_rightmost-outside _ right (24 + j) (inr (omega arith)))
          (put_entry-EntryAt counted 24 pivot left (omega arith) lt),
      tt,
    );
    rightmost = rightmost-set _ right lt';
  }

  -- It sends the keys below the pivot to the left.
  pub find_child-root_page :
      34 + length pivot ≤ page_size
      → left < 2 ^ 64
      → right < 2 ^ 32
      → (key : List ℕ)
      → find_child_in_internal_node page key ≡ (if bytes_lt key pivot then left else right)
  unfolding route
  find_child-root_page fits lt lt' key =
      find_child-route page key (record { child = left; key = pivot } ∷ []) right
        (root_page-InnerHolds fits lt lt')
