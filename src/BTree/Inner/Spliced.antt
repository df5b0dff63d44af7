-- ===== src/BTree/Inner/Spliced.antt =====
-- The bytes that insertIntoInternal leaves hold the entries with the new one among them.
use mathlib.Core.Path.{subst}
use ultimate_db.Prelude.{
  ℕ, ◌+◌, ◌-◌, ◌^◌, ◌≤◌, ◌<◌, ◌≡◌, ◌∙◌, ap, sym, List, [], ◌∷◌, ◌++◌, length, length-append, arith,
  ◌⊎◌, inl, inr,
}
use ultimate_db.Memory.{Memory, put_word, get_word-ext, get-put_self, put_word-outside}
use ultimate_db.Page.{page_size}
use ultimate_db.BTree.{
  num_cells, set_num_cells, copy_within, page_type, page_type_internal, rightmost_child_id,
  set_rightmost_child_id,
}
use ultimate_db.BTree.Leaf.Delete.{set_num_cells-outside, num_cells-set}
use ultimate_db.BTree.Leaf.Cells.{read_bytes-Moved, get_word-Moved}
use ultimate_db.BTree.Inner.{Entry, put_entry}
use ultimate_db.BTree.Inner.Entries.{
  entry_size, entries_size, entries_size-append, length-le-entries_size, EntryAt, EntriesAt,
  InnerHolds, EntryAt-Moved, EntriesAt-Moved, EntriesAt-append, EntriesAt-split,
}
use ultimate_db.BTree.Inner.Place.{
  put_entry-EntryAt, put_entry-outside, rightmost-set, set_rightmost-outside,
}
use ultimate_db.BTree.Inner.Insert.{Spot}

-- The header but for the number of cells and the rightmost child.
abbrev TypeKept : Memory → Memory → Type 0
TypeKept m m' = (i : ℕ) → i < 2 → m' i ≡ m i

page_type-TypeKept :
    (m m' : Memory)
    → TypeKept m m'
    → page_type m ≡ page_type_internal
    → page_type m' ≡ page_type_internal
unfolding page_type
page_type-TypeKept m m' kept e = get_word-ext 2 0 (λ i a b. kept i b) ∙ e

module _ (m : Memory) (es : List Entry) (last : ℕ) (pivot : List ℕ) (left right : ℕ)
    (h : InnerHolds m es last) (room : 24 + entries_size es + (10 + length pivot) ≤ page_size)
    (small : left < 2 ^ 64) (small' : right < 2 ^ 32) where
  abbrev pub new : Entry
  new = record { child = left; key = pivot }

  -- Behind the last entry.
  abbrev pub end : ℕ
  end = 24 + entries_size es

  abbrev pub extended : Memory
  extended =
      set_num_cells (put_entry (set_rightmost_child_id m right) end pivot left) (num_cells m + 1)

  extended-outside : (i : ℕ) → (i < 2) ⊎ (24 ≤ i) → i < end → extended i ≡ m i
  extended-outside i apart lt =
      set_num_cells-outside _ (num_cells m + 1) i (omega arith)
      ∙ put_entry-outside (set_rightmost_child_id m right) end pivot left i (inl lt)
      ∙ set_rightmost-outside m right i (omega arith)

  extended-rightmost : rightmost_child_id extended ≡ right
  unfolding rightmost_child_id
  extended-rightmost =
      get_word-ext 4 20 (λ i a b.
        set_num_cells-outside _ (num_cells m + 1) i (inr (omega arith))
        ∙ put_entry-outside (set_rightmost_child_id m right) end pivot left i (inl (omega arith)))
      ∙ rightmost-set m right small'

  pub extended-InnerHolds : InnerHolds extended (es ++ new ∷ []) right
  extended-InnerHolds = record {
    inner =
        page_type-TypeKept m extended (λ i lt. extended-outside i (inl lt) (omega arith)) h.inner;
    count =
        num_cells-set _ (num_cells m + 1)
        ∙ omega (arith, h.count, length-append es (new ∷ []), length-le-entries_size es);
    room = omega (arith, entries_size-append es (new ∷ []));
    entries =
        EntriesAt-append extended 24 es (new ∷ [])
          (EntriesAt-Moved m extended 24 24 es
            (λ j lt. extended-outside (24 + j) (inr (omega arith)) (omega arith)) h.entries)
          (
            EntryAt-Moved (put_entry (set_rightmost_child_id m right) end pivot left) extended end
                end new
                (λ j lt. set_num_cells-outside _ (num_cells m + 1) (end + j) (inr (omega arith)))
                (put_entry-EntryAt (set_rightmost_child_id m right) end pivot left
                  (omega (arith, room)) small),
            tt,
          );
    rightmost = extended-rightmost;
  }

  -- Before the entry `s.here`.
  module _ (s : Spot pivot left right 24 es last) where
    abbrev pub at : ℕ
    at = 24 + entries_size s.before

    abbrev pub bytes : ℕ
    bytes = 10 + length pivot

    abbrev pub slid : Memory
    slid = copy_within m (at + bytes) at (end - at)

    abbrev pub relinked : Memory
    relinked = put_word 8 slid (at + bytes + 2) right

    abbrev pub placed : Memory
    placed = set_num_cells (put_entry relinked at pivot left) (num_cells m + 1)

    abbrev pub moved : Entry
    moved = record { child = right; key = s.here.key }

    sizes : entries_size es ≡ entries_size s.before + (entry_size s.here + entries_size s.after)
    sizes = ap entries_size s.parts ∙ entries_size-append s.before (s.here ∷ s.after)

    placed-outside :
        (i : ℕ) → (i < 2) ⊎ (4 ≤ i) → (i < at) ⊎ (at + bytes ≤ i) → placed i ≡ relinked i
    placed-outside i apart out =
        set_num_cells-outside _ (num_cells m + 1) i apart
        ∙ put_entry-outside relinked at pivot left i out

    placed-below : (i : ℕ) → (i < 2) ⊎ (4 ≤ i) → i < at → placed i ≡ m i
    unfolding copy_within
    placed-below i apart lt =
        placed-outside i apart (inl lt)
        ∙ put_word-outside 8 slid (at + bytes + 2) right i (inl (omega arith))
        ∙ ground arith

    slid-moved : (j : ℕ) → at + j < end → slid (at + bytes + j) ≡ m (at + j)
    unfolding copy_within
    slid-moved j lt = ground (arith, back at bytes j)
      where
        back : (a n j : ℕ) → a + n + j - (a + n) ≡ j
        back a n j = omega arith

    placed-moved :
        (j : ℕ) → at + j < end → (j < 2) ⊎ (10 ≤ j) → placed (at + bytes + j) ≡ m (at + j)
    placed-moved j lt apart =
        placed-outside (at + bytes + j) (inr (omega arith)) (inr (omega arith))
        ∙ put_word-outside 8 slid (at + bytes + 2) right (at + bytes + j) (omega arith)
        ∙ slid-moved j lt

    moved-EntryAt : EntryAt m at s.here → EntryAt placed (at + bytes) moved
    moved-EntryAt h = record {
      key_size =
          get_word-Moved m placed 2 at (at + bytes)
            (λ j lt. placed-moved j (omega (arith, sizes)) (inl lt))
          ∙ h.key_size;
      child_word =
          get_word-ext 8 (at + bytes + 2)
            (λ i a b. placed-outside i (inr (omega arith)) (inr (omega arith)))
          ∙ get-put_self 8 slid (at + bytes + 2) right (omega (arith, small'));
      key_bytes =
          read_bytes-Moved m placed (at + 10) (at + bytes + 10) (length s.here.key) (λ j lt.
            ap placed (assoc (at + bytes) j)
            ∙ placed-moved (10 + j) (omega (arith, sizes)) (inr (omega arith))
            ∙ ap m (sym (assoc at j)))
          ∙ h.key_bytes;
    }
      where
        assoc : (a b : ℕ) → a + 10 + b ≡ a + (10 + b)
        assoc a b = omega arith

    placed-entries : EntriesAt placed 24 (s.before ++ new ∷ (moved ∷ s.after))
    placed-entries =
        let (front, back) =
          EntriesAt-split m 24 s.before (s.here ∷ s.after)
            (subst (EntriesAt m 24) s.parts h.entries) in
        EntriesAt-append placed 24 s.before (new ∷ (moved ∷ s.after))
          (EntriesAt-Moved m placed 24 24 s.before
            (λ j lt. placed-below (24 + j) (inr (omega arith)) (omega arith)) front)
          (
            EntryAt-Moved (put_entry relinked at pivot left) placed at at new
                (λ j lt. set_num_cells-outside _ (num_cells m + 1) (at + j) (inr (omega arith)))
                (put_entry-EntryAt relinked at pivot left (omega (arith, room)) small),
            (
              moved-EntryAt back.0,
              EntriesAt-Moved m placed (at + entry_size s.here) (at + bytes + entry_size s.here)
                  s.after
                  (λ j lt.
                    ap placed (assoc (at + bytes) (entry_size s.here) j)
                    ∙ placed-moved (entry_size s.here + j) (omega (arith, sizes))
                        (inr (omega arith))
                    ∙ ap m (sym (assoc at (entry_size s.here) j)))
                  back.1,
            ),
          )
      where
        assoc : (a b c : ℕ) → a + b + c ≡ a + (b + c)
        assoc a b c = omega arith

    placed-rightmost : rightmost_child_id placed ≡ rightmost_child_id m
    unfolding rightmost_child_id
    placed-rightmost = get_word-ext 4 20 (λ i a b. placed-below i (inr (omega arith)) (omega arith))

    pub placed-InnerHolds : InnerHolds placed (s.before ++ new ∷ (moved ∷ s.after)) last
    placed-InnerHolds = record {
      inner = page_type-TypeKept m placed (λ i lt. placed-below i (inl lt) (omega arith)) h.inner;
      count =
          num_cells-set _ (num_cells m + 1)
          ∙ omega (
            arith,
            h.count,
            room,
            ap length s.parts,
            length-append s.before (s.here ∷ s.after),
            length-append s.before (new ∷ (moved ∷ s.after)),
            length-le-entries_size es,
          );
      room = omega (arith, sizes, room, entries_size-append s.before (new ∷ (moved ∷ s.after)));
      entries = placed-entries;
      rightmost = placed-rightmost ∙ h.rightmost;
    }
