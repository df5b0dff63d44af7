-- ===== src/Kv/Iterator.antt =====
-- The iterator of the key-value store over the keys with a prefix.
use ultimate_db.Prelude.{
  ℕ, zero, suc, ◌<◌, ◌≡◌, refl, ◌∙◌, ap, sym, true, false, ◌||◌, some, List, [], ◌∷◌, length, arith,
  if◌then◌else◌, nat_eq, Bool-cases, inl, inr, ◌⊎◌,
}
use ultimate_db.Bytes.{bytes_lt, has_prefix}
use ultimate_db.BTree.{Cell}
use ultimate_db.BTree.Leaf.Sorted.{Above, Sorted}
use ultimate_db.BTree.Tree.{Tree}
use ultimate_db.BTree.Cursor.{Cursor, entry, end_of_file, cursor_next, opened, new_cursor}
use ultimate_db.BTree.Cursor.Chain.{Yields, Chain, all_cells, start, Yields-Chain}
use ultimate_db.Kv.{iterator_next, collect_keys, keys_with_prefix}

-- The specification: the keys with the prefix, in their order.
unfoldable pub keys_matching : List ℕ → List Cell → List (List ℕ)
unfolding has_prefix
keys_matching prefix [] = []
keys_matching prefix (x ∷ xs) =
    let rest = keys_matching prefix xs in if has_prefix x.key prefix then x.key ∷ rest else rest

-- Behind a key that is past the prefix no key has it.
past_prefix :
    (p a b : List ℕ)
    → has_prefix a p ≡ false
    → bytes_lt p a ≡ true
    → bytes_lt a b ≡ true
    → has_prefix b p ≡ false
unfolding has_prefix bytes_lt
past_prefix [] [] b bad lt lt' = bad
past_prefix [] (x ∷ a) b bad lt lt' = ground (arith, bad)
past_prefix (q ∷ p) [] b bad lt lt' = ground (arith, lt)
past_prefix (q ∷ p) (x ∷ a) [] bad lt lt' = refl
past_prefix (q ∷ p) (x ∷ a) (y ∷ b) bad lt lt' = ground (arith, bad, lt, lt', past_prefix p a b)

none_past :
    (p a : List ℕ) (xs : List Cell)
    → has_prefix a p ≡ false
    → bytes_lt p a ≡ true
    → Above a xs
    → keys_matching p xs ≡ []
unfolding keys_matching
none_past p a [] bad lt h = refl
none_past p a (x ∷ xs) bad lt h =
    ground (arith, past_prefix p a x.key bad lt h.0, none_past p a xs bad lt h.1)

prefix_test : (p a : List ℕ) → (nat_eq (length p) 0 || has_prefix a p) ≡ has_prefix a p
unfolding has_prefix
prefix_test [] [] = refl
prefix_test [] (x ∷ a) = refl
prefix_test (q ∷ p) a = ground arith

module _ (t : Tree) (p : List ℕ) where
  next_end :
      (fuel : ℕ) (c c' : Cursor)
      → cursor_next t c ≡ (c', end_of_file)
      → iterator_next (suc fuel) t p c ≡ some (c', end_of_file)
  unfolding iterator_next
  next_end fuel c c' e = ground (arith, e)

  next_match :
      (fuel : ℕ) (c c' : Cursor) (x : Cell)
      → cursor_next t c ≡ (c', entry x)
      → has_prefix x.key p ≡ true
      → iterator_next (suc fuel) t p c ≡ some (c', entry x)
  unfolding iterator_next
  next_match fuel c c' x e e' = ground (arith, e, prefix_test p x.key, e')

  next_past :
      (fuel : ℕ) (c c' : Cursor) (x : Cell)
      → cursor_next t c ≡ (c', entry x)
      → has_prefix x.key p ≡ false
      → bytes_lt p x.key ≡ true
      → iterator_next (suc fuel) t p c ≡ some (c', end_of_file)
  unfolding iterator_next
  next_past fuel c c' x e bad lt = ground (arith, e, prefix_test p x.key, bad, lt)

  next_skip :
      (fuel : ℕ) (c c' : Cursor) (x : Cell)
      → cursor_next t c ≡ (c', entry x)
      → has_prefix x.key p ≡ false
      → bytes_lt p x.key ≡ false
      → iterator_next (suc fuel) t p c ≡ iterator_next fuel t p c'
  unfolding iterator_next
  next_skip fuel c c' x e bad ge = ground (arith, e, prefix_test p x.key, bad, ge)

  -- The next cell with the prefix.
  record Found (fuel : ℕ) (c : Cursor) (xs : List Cell) : Type 0 where
    cell : Cell
    rest : List Cell
    after : Cursor
    found : iterator_next fuel t p c ≡ some (after, entry cell)
    yields : Yields t after rest
    sorted : Sorted rest
    matching : keys_matching p xs ≡ cell.key ∷ keys_matching p rest
    shorter : length rest < length xs

  next-Yields :
      (fuel : ℕ) (c : Cursor) (xs : List Cell)
      → Yields t c xs
      → Sorted xs
      → length xs < fuel
      → ((c' : Cursor) × (iterator_next fuel t p c ≡ some (c', end_of_file))
          × (keys_matching p xs ≡ []))
        ⊎ Found fuel c xs
  unfolding keys_matching
  next-Yields zero c xs y s lt = ground (arith, lt)
  next-Yields (suc fuel) c [] y s lt = inl (c, next_end fuel c c y, refl)
  next-Yields (suc fuel) c (x ∷ xs) y s lt = elim (Bool-cases (has_prefix x.key p)) [
    | inl e ↦ inr (record {
      cell = x;
      rest = xs;
      after = y.0;
      found = next_match fuel c y.0 x y.1 e;
      yields = y.2;
      sorted = s.1;
      matching = rw e refl;
      shorter = omega arith;
    })
    | inr bad ↦ elim (Bool-cases (bytes_lt p x.key)) [
      | inl past ↦
          inl (y.0, next_past fuel c y.0 x y.1 bad past, rw bad (none_past p x.key xs bad past s.0))
      | inr ge ↦ elim (next-Yields fuel y.0 xs y.2 s.1 (omega arith)) [
        | inl (c', e, empty) ↦ inl (c', next_skip fuel c y.0 x y.1 bad ge ∙ e, rw bad empty)
        | inr f ↦ inr (record {
          cell = f.cell;
          rest = f.rest;
          after = f.after;
          found = next_skip fuel c y.0 x y.1 bad ge ∙ f.found;
          yields = f.yields;
          sorted = f.sorted;
          matching = rw bad f.matching;
          shorter = omega (arith, f.shorter);
        })
      ]
    ]
  ]

  collect_end :
      (rounds fuel : ℕ) (c c' : Cursor)
      → iterator_next fuel t p c ≡ some (c', end_of_file)
      → collect_keys (suc rounds) fuel t p c ≡ []
  unfolding collect_keys
  collect_end rounds fuel c c' e = ground (arith, e)

  collect_more :
      (rounds fuel : ℕ) (c c' : Cursor) (x : Cell)
      → iterator_next fuel t p c ≡ some (c', entry x)
      → collect_keys (suc rounds) fuel t p c ≡ x.key ∷ collect_keys rounds fuel t p c'
  unfolding collect_keys
  collect_more rounds fuel c c' x e = ground (arith, e)

  collect-Yields :
      (rounds fuel : ℕ) (c : Cursor) (xs : List Cell)
      → Yields t c xs
      → Sorted xs
      → length xs < rounds
      → length xs < fuel
      → collect_keys rounds fuel t p c ≡ keys_matching p xs
  collect-Yields zero fuel c xs y s lt lt' = ground (arith, lt)
  collect-Yields (suc rounds) fuel c xs y s lt lt' = elim (next-Yields fuel c xs y s lt') [
    | inl (c', e, empty) ↦ collect_end rounds fuel c c' e ∙ sym empty
    | inr f ↦
        collect_more rounds fuel c f.after f.cell f.found
        ∙ ap (λ r. f.cell.key ∷ r)
            (collect-Yields rounds fuel f.after f.rest f.yields f.sorted (omega (arith, f.shorter))
              (omega (arith, f.shorter)))
        ∙ sym f.matching
  ]

-- The iterator over a chain of leaves, none of them empty, whose keys ascend yields the keys with the
-- prefix, each once and in their order, if the fuel exceeds the number of the cells.
pub keys_with_prefix-Chain :
    (fuel : ℕ) (t : Tree) (p : List ℕ) (id : ℕ) (cs : List Cell) (more : List (List Cell))
    → new_cursor fuel t t.root ≡ opened (start t id)
    → Chain t id cs more
    → 0 < length cs
    → Sorted (all_cells cs more)
    → length (all_cells cs more) < fuel
    → keys_with_prefix fuel t p ≡ keys_matching p (all_cells cs more)
unfolding keys_with_prefix
keys_with_prefix-Chain fuel t p id cs more e h lt s enough = ground (
  arith,
  e,
  collect-Yields t p fuel fuel (start t id) (all_cells cs more) (Yields-Chain t id cs more h lt) s
      enough enough,
)
