-- ===== src/Kv/Reset.antt =====
-- The page that resetBTreePage leaves.
use ultimate_db.Prelude.{ℕ, ◌<◌, ◌≡◌, ◌∙◌, false, [], arith, inl}
use ultimate_db.Memory.{Memory, get_word-ext, get-put_self, put_word-outside}
use ultimate_db.BTree.{
  page_type, page_type_leaf, num_cells, set_num_cells, set_page_type, btree_init, next_leaf_id,
  set_next_leaf_id, set_parent_id, zero_fill,
}
use ultimate_db.BTree.Leaf.Cells.{Holds}
use ultimate_db.BTree.Leaf.Delete.{num_cells-set, set_num_cells-outside}
use ultimate_db.Kv.{reset_btree_page, btree_page_needs_reset}

module _ (m : Memory) where
  abbrev typed : Memory
  typed = set_page_type (btree_init m) page_type_leaf

  abbrev linked : Memory
  linked = set_next_leaf_id (set_num_cells typed 0) 0

  header_kept : (i : ℕ) → i < 12 → reset_btree_page m i ≡ linked i
  unfolding reset_btree_page zero_fill set_parent_id
  header_kept i lt = ground (arith, lt, put_word-outside 8 linked 12 0 i (inl lt))

  linked_kept : (i : ℕ) → i < 4 → linked i ≡ set_num_cells typed 0 i
  unfolding set_next_leaf_id
  linked_kept i lt = put_word-outside 8 (set_num_cells typed 0) 4 0 i (inl lt)

  reset_type : page_type (reset_btree_page m) ≡ page_type_leaf
  unfolding page_type set_page_type
  reset_type =
      get_word-ext 2 0 (λ i a b.
        header_kept i (omega arith)
        ∙ linked_kept i (omega arith)
        ∙ set_num_cells-outside typed 0 i (inl (omega arith)))
      ∙ get-put_self 2 (btree_init m) 0 page_type_leaf (omega arith)

  reset_count : num_cells (reset_btree_page m) ≡ 0
  unfolding num_cells
  reset_count =
      get_word-ext 2 2 (λ i a b. header_kept i (omega arith) ∙ linked_kept i (omega arith))
      ∙ num_cells-set typed 0
      ∙ omega arith

  reset_next : next_leaf_id (reset_btree_page m) ≡ 0
  unfolding next_leaf_id set_next_leaf_id
  reset_next =
      get_word-ext 8 4 (λ i a b. header_kept i (omega arith))
      ∙ get-put_self 8 (set_num_cells typed 0) 4 0 (omega arith)

  -- A page that was reset, whatever it was before, is a leaf without cells and without a next leaf,
  -- and is not reset by the next opening.
  pub reset_btree_page-Holds :
      Holds (reset_btree_page m) []
      × (next_leaf_id (reset_btree_page m) ≡ 0)
      × (btree_page_needs_reset (reset_btree_page m) ≡ false)
  unfolding btree_page_needs_reset
  reset_btree_page-Holds = (
    record { leaf = reset_type; count = reset_count; room = omega arith; cells = tt },
    reset_next,
    ground (arith, reset_type, reset_count),
  )
