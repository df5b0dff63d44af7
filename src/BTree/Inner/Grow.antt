-- ===== src/BTree/Inner/Grow.antt =====
-- insertIntoInternal on an inner page that holds entries.
use mathlib.Core.Path.{subst}
use ultimate_db.Prelude.{
  ℕ, ◌+◌, ◌-◌, ◌^◌, ◌≤◌, ◌<◌, ◌≡◌, ◌∙◌, ap, sym, true, none, some, List, ◌∷◌, length, arith, inl,
  inr, if◌then◌else◌, nat_eq, lt→ltb,
}
use ultimate_db.Bytes.{bytes_lt}
use ultimate_db.Memory.{Memory, put_word}
use ultimate_db.Page.{page_size}
use ultimate_db.BTree.{
  num_cells, set_num_cells, btree_header_size, copy_within, set_rightmost_child_id,
  is_safe_for_insert,
}
use ultimate_db.BTree.Inner.{
  Entry, put_entry, pivot_offset, make_place, entry_bytes, insert_into_internal,
  find_child_in_internal_node,
}
use ultimate_db.BTree.Inner.Entries.{
  entries_size, entries_size-append, InnerHolds, find_child-route,
}
use ultimate_db.BTree.Inner.Insert.{
  is_safe_for_insert-InnerHolds, split_child, slot_of, route-split_child, pivot_offset-EntriesAt,
  Spot-cases,
}
use ultimate_db.BTree.Inner.Spliced.{extended, extended-InnerHolds, placed, placed-InnerHolds}

insert_behind :
    (m : Memory) (pivot : List ℕ) (left right end : ℕ)
    → pivot_offset m pivot (num_cells m) btree_header_size ≡ (none, end)
    → is_safe_for_insert m (entry_bytes pivot) ≡ true
    → end + entry_bytes pivot ≤ page_size
    → insert_into_internal m pivot left right ≡ (
      set_num_cells (put_entry (set_rightmost_child_id m right) end pivot left) (num_cells m + 1),
      true,
    )
unfolding insert_into_internal make_place
insert_behind m pivot left right end e safe le = ground (arith, e, safe, le)

insert_before :
    (m : Memory) (pivot : List ℕ) (left right at end : ℕ)
    → pivot_offset m pivot (num_cells m) btree_header_size ≡ (some at, end)
    → is_safe_for_insert m (entry_bytes pivot) ≡ true
    → at ≤ end
    → end + entry_bytes pivot ≤ page_size
    → insert_into_internal m pivot left right ≡ (
      set_num_cells
          (put_entry
            (put_word 8
              (copy_within m (at + entry_bytes pivot) at (end - at))
              (at + entry_bytes pivot + 2)
              right)
            at
            pivot
            left)
          (num_cells m + 1),
      true,
    )
unfolding insert_into_internal make_place
insert_before m pivot left right at end e safe before le = ground (arith, e, safe, before, le)

-- On an inner page that holds `es` and has room, insertIntoInternal splits the child that the pivot
-- is sent to.
pub insert_into_internal-InnerHolds :
    (m : Memory) (es : List Entry) (last : ℕ) (pivot : List ℕ) (left right : ℕ)
    → InnerHolds m es last
    → 24 + entries_size es + (10 + length pivot) < page_size
    → left < 2 ^ 64
    → right < 2 ^ 32
    → (m' : Memory) × (insert_into_internal m pivot left right ≡ (m', true))
      × InnerHolds m'
          (split_child pivot left right es last).0
          (split_child pivot left right es last).1
insert_into_internal-InnerHolds m es last pivot left right h room small small' =
    let safe = is_safe_for_insert-InnerHolds m es last (10 + length pivot) h ∙ lt→ltb _ _ room in
    let found =
      ap (λ n. pivot_offset m pivot n btree_header_size) h.count
      ∙ pivot_offset-EntriesAt m pivot 24 es h.entries h.room in
    elim (Spot-cases pivot left right 24 es last) [
      | inl (place, split) ↦ (
        extended m es last pivot left right h (omega arith) small small',
        insert_behind m pivot left right (24 + entries_size es)
            (found ∙ ap (λ o. (o, 24 + entries_size es)) place) safe (omega arith),
        subst
            (λ r.
              InnerHolds (extended m es last pivot left right h (omega arith) small small') r.0 r.1)
            (sym split)
            (extended-InnerHolds m es last pivot left right h (omega arith) small small'),
      )
      | inr s ↦ (
        placed m es last pivot left right h (omega arith) small small' s,
        insert_before m pivot left right (24 + entries_size s.before) (24 + entries_size es)
            (found ∙ ap (λ o. (o, 24 + entries_size es)) s.place) safe
            (omega
              (arith, ap entries_size s.parts, entries_size-append s.before (s.here ∷ s.after)))
            (omega arith),
        subst
            (λ r.
              InnerHolds (placed m es last pivot left right h (omega arith) small small' s) r.0 r.1)
            (sym s.split)
            (placed-InnerHolds m es last pivot left right h (omega arith) small small' s),
      )
    ]

-- insertIntoInternal at a page with room: afterwards the keys that were sent to the child of the
-- pivot are sent to the left child if they are below the pivot and to the right child if not, and
-- all other keys are sent to the same children as before.
pub find_child-insert_into_internal :
    (m : Memory) (es : List Entry) (last : ℕ) (pivot : List ℕ) (left right : ℕ)
    → InnerHolds m es last
    → 24 + entries_size es + (10 + length pivot) < page_size
    → left < 2 ^ 64
    → right < 2 ^ 32
    → (m' : Memory) × (insert_into_internal m pivot left right ≡ (m', true))
      × ((key : List ℕ)
          → find_child_in_internal_node m' key ≡ (
              if nat_eq (slot_of key es) (slot_of pivot es)
              then (if bytes_lt key pivot then left else right)
              else find_child_in_internal_node m key))
find_child-insert_into_internal m es last pivot left right h room small small' =
    let (m', done, h') =
      insert_into_internal-InnerHolds m es last pivot left right h room small small' in
    (
      m',
      done,
      λ key.
          find_child-route m' key (split_child pivot left right es last).0
            (split_child pivot left right es last).1 h'
          ∙ route-split_child pivot left right es last key
          ∙ ap
              (λ id.
                if nat_eq (slot_of key es) (slot_of pivot es)
                then (if bytes_lt key pivot then left else right)
                else id)
              (sym (find_child-route m key es last h)),
    )
