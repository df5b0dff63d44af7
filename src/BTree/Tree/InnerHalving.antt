-- ===== src/BTree/Tree/InnerHalving.antt =====
-- SplitInternalNode on an inner page that holds entries: the entry in the middle goes up, the two
-- halves hold the others.
use ultimate_db.Prelude.{
  ℕ, suc, ◌+◌, ◌-◌, ◌≤◌, ◌<◌, ◌^◌, ◌≡◌, ◌∙◌, ap, some, List, [], ◌∷◌, ◌++◌, length, length-append,
  ◌⊎◌, arith, inl, inr,
}
use ultimate_db.Memory.{Memory, get_word-ext, get-put_self, put_word-outside}
use ultimate_db.Page.{page_size}
use ultimate_db.BTree.{
  num_cells, page_type, page_type_internal, set_page_type, btree_init, zero_fill, parent_id,
  set_parent_id, rightmost_child_id, set_rightmost_child_id,
}
use ultimate_db.BTree.Leaf.Delete.{num_cells-set, set_num_cells-outside}
use ultimate_db.BTree.Inner.{Entry}
use ultimate_db.BTree.Inner.Entries.{
  entry_size, entries_size, entries_size-append, length-le-entries_size, EntriesAt, InnerHolds,
  EntriesAt-split, EntriesAt-Moved, inner_cell-EntryAt, inner_cell_bytes-EntryAt,
}
use ultimate_db.BTree.Inner.Place.{rightmost-set, set_rightmost-outside}
use ultimate_db.BTree.Tree.{inner_mid, copy_body, left_inner, right_inner}

pub inner_mid-EntriesAt :
    (m : Memory) (off : ℕ) (xs : List Entry) (e : Entry) (ys : List Entry)
    → EntriesAt m off (xs ++ e ∷ ys)
    → off + entries_size (xs ++ e ∷ ys) ≤ page_size
    → inner_mid m (length xs) (length (xs ++ e ∷ ys)) off
      ≡ (some e, off + entries_size xs + entry_size e)
unfolding inner_mid
inner_mid-EntriesAt m off [] e ys h le =
    ground (arith, inner_cell-EntryAt m off e h.0, inner_cell_bytes-EntryAt m off e h.0)
inner_mid-EntriesAt m off (x ∷ xs) e ys h le = ground (
  arith,
  inner_cell-EntryAt m off x h.0,
  ap (λ n. inner_mid m (length xs) (length (xs ++ e ∷ ys)) n)
      (ap (λ n. off + n) (inner_cell_bytes-EntryAt m off x h.0)),
  inner_mid-EntriesAt m (off + entry_size x) xs e ys h.1,
)

module _ (fresh m : Memory) (xs : List Entry) (e : Entry) (ys : List Entry) (last : ℕ)
    (h : InnerHolds m (xs ++ e ∷ ys) last) where
  abbrev off : ℕ
  off = 24 + entries_size xs + entry_size e

  fits : off + entries_size ys ≤ page_size
  fits = omega (arith, h.room, entries_size-append xs (e ∷ ys))

  count_lem : num_cells m ≡ length xs + suc (length ys)
  count_lem = h.count ∙ length-append xs (e ∷ ys)

  abbrev left : Memory
  left = left_inner m e.child (length xs) off

  left_kept : (i : ℕ) → (i < 2) ⊎ (24 ≤ i) → i < off → left i ≡ m i
  unfolding left_inner zero_fill
  left_kept i apart lt = ground (
    arith,
    set_num_cells-outside (set_rightmost_child_id m e.child) (length xs) i (omega arith),
    set_rightmost-outside m e.child i (omega arith),
  )

  left_type : page_type left ≡ page_type_internal
  unfolding page_type
  left_type = get_word-ext 2 0 (λ i a b. left_kept i (inl (omega arith)) (omega arith)) ∙ h.inner

  left_count : num_cells left ≡ length xs
  unfolding left_inner zero_fill num_cells
  left_count =
      get_word-ext 2 2 (λ i a b. ground (arith, b))
      ∙ num_cells-set (set_rightmost_child_id m e.child) (length xs)
      ∙ omega (arith, fits, length-le-entries_size xs)

  left_rightmost : e.child < 2 ^ 32 → rightmost_child_id left ≡ e.child
  unfolding left_inner zero_fill rightmost_child_id
  left_rightmost lt =
      get_word-ext 4 20 (λ i a b. ground (
        arith,
        b,
        set_num_cells-outside (set_rightmost_child_id m e.child) (length xs) i (omega arith),
      ))
      ∙ rightmost-set m e.child lt

  pub left_inner-InnerHolds : e.child < 2 ^ 32 → InnerHolds left xs e.child
  left_inner-InnerHolds lt = record {
    inner = left_type;
    count = left_count;
    room = omega (arith, fits);
    entries =
        EntriesAt-Moved m left 24 24 xs
          (λ j lt. left_kept (24 + j) (inr (omega arith)) (omega arith))
          (EntriesAt-split m 24 xs (e ∷ ys) h.entries).0;
    rightmost = left_rightmost lt;
  }

  abbrev typed : Memory
  typed = set_parent_id (set_page_type (btree_init fresh) page_type_internal) (parent_id m)

  abbrev linked : Memory
  linked = set_rightmost_child_id typed (rightmost_child_id m)

  abbrev right : Memory
  right = right_inner fresh m (length xs) off

  right_kept : (i : ℕ) → (i < 2) ⊎ (4 ≤ i) → i < 24 → right i ≡ linked i
  unfolding right_inner copy_body
  right_kept i apart lt =
      set_num_cells-outside _ (num_cells m + 65535 - length xs) i apart ∙ ground (arith, lt)

  right_moved : (j : ℕ) → j < entries_size ys → right (24 + j) ≡ m (off + j)
  unfolding right_inner copy_body
  right_moved j lt =
      set_num_cells-outside _ (num_cells m + 65535 - length xs) (24 + j) (inr (omega arith))
      ∙ ground (arith, fits, back j)
    where
      back : (j : ℕ) → 24 + j - 24 ≡ j
      back j = omega arith

  right_type : page_type right ≡ page_type_internal
  unfolding page_type set_page_type set_parent_id
  right_type =
      get_word-ext 2 0 (λ i a b.
        right_kept i (inl b) (omega arith)
        ∙ set_rightmost-outside typed (rightmost_child_id m) i (inl (omega arith))
        ∙ put_word-outside 8 (set_page_type (btree_init fresh) page_type_internal) 12 (parent_id m)
            i (inl (omega arith)))
      ∙ get-put_self 2 (btree_init fresh) 0 page_type_internal (omega arith)

  right_count : num_cells right ≡ length ys
  unfolding right_inner
  right_count =
      num_cells-set _ (num_cells m + 65535 - length xs)
      ∙ omega (arith, count_lem, fits, length-le-entries_size ys, length-le-entries_size xs)

  right_rightmost : last < 2 ^ 32 → rightmost_child_id right ≡ last
  unfolding rightmost_child_id
  right_rightmost lt =
      get_word-ext 4 20 (λ i a b. right_kept i (inr (omega arith)) (omega arith))
      ∙ ap (λ n. rightmost_child_id (set_rightmost_child_id typed n)) h.rightmost
      ∙ rightmost-set typed last lt

  pub right_inner-InnerHolds : last < 2 ^ 32 → InnerHolds right ys last
  right_inner-InnerHolds lt = record {
    inner = right_type;
    count = right_count;
    room = omega (arith, fits);
    entries =
        EntriesAt-Moved m right off 24 ys (λ j lt. right_moved j lt)
          (behind (EntriesAt-split m 24 xs (e ∷ ys) h.entries).1.1);
    rightmost = right_rightmost lt;
  }
    where
      behind : EntriesAt m (24 + entries_size xs + entry_size e) ys → EntriesAt m off ys
      behind k = k
