-- ===== src/BTree/Cursor/Join.antt =====
-- SortMergeJoin on what two cursors yield.
use mathlib.Core.Path.{subst}
use ultimate_db.Prelude.{
  ℕ, zero, suc, ◌+◌, ◌<◌, ◌≡◌, refl, ◌∙◌, ap, sym, true, false, Option, none, some, List, [], ◌∷◌,
  length, arith, Bool-cases, inl, inr, bytes_eq, bytes_eq_iff,
}
use ultimate_db.Bytes.{bytes_lt}
use ultimate_db.Bytes.Order.{bytes_lt_irrefl, bytes_lt_total}
use ultimate_db.BTree.{Cell}
use ultimate_db.BTree.Leaf.Sorted.{lookup_cell, lookup-Above, Above, Above-trans, Sorted}
use ultimate_db.BTree.Tree.{Tree}
use ultimate_db.BTree.Cursor.{
  Cursor, Yield, entry, end_of_file, out_of_bounds, corrupt_cell, nil_node, cursor_next, opened,
  new_cursor, JoinResult, results, join_loop, joined_more, is_failure, sort_merge_join,
}
use ultimate_db.BTree.Cursor.Chain.{Yields, Chain, all_cells, start, Yields-Chain}

abbrev join_cell : Cell → Option (List ℕ) → List JoinResult → List JoinResult
join_cell x none rest = rest
join_cell x (some val) rest =
    record { join_key = x.key; left_value = x.value; right_value = val } ∷ rest

-- The specification: every cell of the left list whose key has a value in the right one, with that
-- value.
unfoldable pub joined : List Cell → List Cell → List JoinResult
unfolding lookup_cell
joined [] ys = []
joined (x ∷ xs) ys = join_cell x (lookup_cell x.key ys) (joined xs ys)

joined_none : (ys : List Cell) → [] ≡ joined [] ys
unfolding joined
joined_none ys = refl

joined-nil : (xs : List Cell) → joined xs [] ≡ []
unfolding joined lookup_cell
joined-nil [] = refl
joined-nil (x ∷ xs) = joined-nil xs

joined-below : (xs ys : List Cell) (b : Cell) → Above b.key xs → joined xs (b ∷ ys) ≡ joined xs ys
unfolding joined lookup_cell
joined-below [] ys b h = refl
joined-below (x ∷ xs) ys b h =
    ground (arith, joined-below xs ys b h.1, bytes_eq_iff x.key b.key, h.0, bytes_lt_irrefl x.key)

joined-same :
    (a b : Cell) (xs ys : List Cell)
    → bytes_eq a.key b.key ≡ true
    → Above a.key xs
    → joined (a ∷ xs) (b ∷ ys)
      ≡ record { join_key = a.key; left_value = a.value; right_value = b.value } ∷ joined xs ys
unfolding joined lookup_cell
joined-same a b xs ys e h = rw e (
    ap (λ r. record { join_key = a.key; left_value = a.value; right_value = b.value } ∷ r)
      (joined-below xs ys b (subst (λ k. Above k xs) ((bytes_eq_iff a.key b.key).0 e) h)))

joined-left :
    (a b : Cell) (xs ys : List Cell)
    → bytes_lt a.key b.key ≡ true
    → Above b.key ys
    → joined (a ∷ xs) (b ∷ ys) ≡ joined xs (b ∷ ys)
unfolding joined lookup_cell
joined-left a b xs ys lt h = ap (λ o. join_cell a o (joined xs (b ∷ ys))) away
  where
    away : lookup_cell a.key (b ∷ ys) ≡ none
    away = ground (
      arith,
      lt,
      bytes_eq_iff a.key b.key,
      bytes_lt_irrefl a.key,
      lookup-Above a.key b.key ys h lt,
    )

module _ (fuel : ℕ) (tl tr : Tree) (cl cr : Cursor) where
  step_same :
      (a b : Cell)
      → bytes_eq a.key b.key ≡ true
      → join_loop (suc fuel) tl tr (cl, entry a) (cr, entry b)
        ≡ joined_more
            (record { join_key = a.key; left_value = a.value; right_value = b.value })
            (join_loop fuel tl tr (cursor_next tl cl) (cursor_next tr cr))
  unfolding join_loop
  step_same a b e = rw e refl

  step_left :
      (a b : Cell)
      → bytes_eq a.key b.key ≡ false
      → bytes_lt a.key b.key ≡ true
      → join_loop (suc fuel) tl tr (cl, entry a) (cr, entry b)
        ≡ join_loop fuel tl tr (cursor_next tl cl) (cr, entry b)
  unfolding join_loop
  step_left a b e lt = rw (e, lt) refl

  step_right :
      (a b : Cell)
      → bytes_eq a.key b.key ≡ false
      → bytes_lt a.key b.key ≡ false
      → join_loop (suc fuel) tl tr (cl, entry a) (cr, entry b)
        ≡ join_loop fuel tl tr (cl, entry a) (cursor_next tr cr)
  unfolding join_loop
  step_right a b e lt = rw (e, lt) refl

  step_left_end :
      (y : Yield)
      → is_failure y ≡ false
      → join_loop (suc fuel) tl tr (cl, end_of_file) (cr, y) ≡ some (results [])
  unfolding join_loop
  step_left_end (entry c) e = refl
  step_left_end end_of_file e = refl
  step_left_end out_of_bounds e = ground (arith, e)
  step_left_end corrupt_cell e = ground (arith, e)
  step_left_end nil_node e = ground (arith, e)

  step_right_end :
      (a : Cell) → join_loop (suc fuel) tl tr (cl, entry a) (cr, end_of_file) ≡ some (results [])
  unfolding join_loop
  step_right_end a = refl

  start_at :
      (p q : Cursor × Yield)
      → cursor_next tl cl ≡ p
      → cursor_next tr cr ≡ q
      → join_loop fuel tl tr (cursor_next tl cl) (cursor_next tr cr) ≡ join_loop fuel tl tr p q
  start_at p q e e' =
      ap (λ r. join_loop fuel tl tr r (cursor_next tr cr)) e ∙ ap (λ r. join_loop fuel tl tr p r) e'

-- The loop of SortMergeJoin on cursors that yield sorted lists.
join_loop-Yields :
    (fuel : ℕ) (tl tr : Tree) (cl cr : Cursor) (xs ys : List Cell)
    → Yields tl cl xs
    → Yields tr cr ys
    → Sorted xs
    → Sorted ys
    → length xs + length ys < fuel
    → join_loop fuel tl tr (cursor_next tl cl) (cursor_next tr cr) ≡ some (results (joined xs ys))
join_loop-Yields zero tl tr cl cr xs ys yl yr sl sr lt = ground (arith, lt)
join_loop-Yields (suc fuel) tl tr cl cr [] [] yl yr sl sr lt =
    start_at (suc fuel) tl tr cl cr (cl, end_of_file) (cr, end_of_file) yl yr
    ∙ step_left_end fuel tl tr cl cr end_of_file refl
    ∙ ap (λ r. some (results r)) (sym (joined-nil []))
join_loop-Yields (suc fuel) tl tr cl cr [] (b ∷ ys) yl yr sl sr lt =
    start_at (suc fuel) tl tr cl cr (cl, end_of_file) (yr.0, entry b) yl yr.1
    ∙ step_left_end fuel tl tr cl yr.0 (entry b) refl
    ∙ ap (λ r. some (results r)) (joined_none (b ∷ ys))
join_loop-Yields (suc fuel) tl tr cl cr (a ∷ xs) [] yl yr sl sr lt =
    start_at (suc fuel) tl tr cl cr (yl.0, entry a) (cr, end_of_file) yl.1 yr
    ∙ step_right_end fuel tl tr yl.0 cr a
    ∙ ap (λ r. some (results r)) (sym (joined-nil (a ∷ xs)))
join_loop-Yields (suc fuel) tl tr cl cr (a ∷ xs) (b ∷ ys) yl yr sl sr lt =
    start_at (suc fuel) tl tr cl cr (yl.0, entry a) (yr.0, entry b) yl.1 yr.1
    ∙ elim (Bool-cases (bytes_eq a.key b.key)) [
      | inl same ↦
          step_same fuel tl tr yl.0 yr.0 a b same
          ∙ ap
              (joined_more
                (record { join_key = a.key; left_value = a.value; right_value = b.value }))
              (join_loop-Yields fuel tl tr yl.0 yr.0 xs ys yl.2 yr.2 sl.1 sr.1 (omega arith))
          ∙ ap (λ r. some (results r)) (sym (joined-same a b xs ys same sl.0))
      | inr apart ↦ elim (Bool-cases (bytes_lt a.key b.key)) [
        | inl left ↦
            step_left fuel tl tr yl.0 yr.0 a b apart left
            ∙ ap (λ q. join_loop fuel tl tr (cursor_next tl yl.0) q) (sym yr.1)
            ∙ join_loop-Yields fuel tl tr yl.0 cr xs (b ∷ ys) yl.2 yr sl.1 sr (omega arith)
            ∙ ap (λ r. some (results r)) (sym (joined-left a b xs ys left sr.0))
        | inr right ↦
            step_right fuel tl tr yl.0 yr.0 a b apart right
            ∙ ap (λ p. join_loop fuel tl tr p (cursor_next tr yr.0)) (sym yl.1)
            ∙ join_loop-Yields fuel tl tr cl yr.0 (a ∷ xs) ys yl yr.2 sl sr.1 (omega arith)
            ∙ ap (λ r. some (results r))
                (sym (joined-below (a ∷ xs) ys b (below (bytes_lt_total a.key b.key right apart))))
      ]
    ]
  where
    below : bytes_lt b.key a.key ≡ true → Above b.key (a ∷ xs)
    below lt = (lt, Above-trans b.key a.key xs lt sl.0)

-- SortMergeJoin of two trees whose leaves, none of them empty, are chains with ascending keys: one
-- result for every cell of the left tree whose key is in the right tree, in the order of the left
-- one, if the fuel exceeds the number of the cells of both.
pub sort_merge_join-Chain :
    (fuel : ℕ) (tl tr : Tree) (il ir : ℕ) (cs ds : List Cell) (more more' : List (List Cell))
    → new_cursor fuel tl tl.root ≡ opened (start tl il)
    → new_cursor fuel tr tr.root ≡ opened (start tr ir)
    → Chain tl il cs more
    → Chain tr ir ds more'
    → 0 < length cs
    → 0 < length ds
    → Sorted (all_cells cs more)
    → Sorted (all_cells ds more')
    → length (all_cells cs more) + length (all_cells ds more') < fuel
    → sort_merge_join fuel tl tr ≡ some (results (joined (all_cells cs more) (all_cells ds more')))
unfolding sort_merge_join
sort_merge_join-Chain fuel tl tr il ir cs ds more more' e e' h h' lt lt' s s' enough = ground (
  arith,
  e,
  e',
  join_loop-Yields fuel tl tr (start tl il) (start tr ir) (all_cells cs more) (all_cells ds more')
      (Yields-Chain tl il cs more h lt) (Yields-Chain tr ir ds more' h' lt') s s' enough,
)
