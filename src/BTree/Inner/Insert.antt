-- ===== src/BTree/Inner/Insert.antt =====
-- insertIntoInternal on the list of entries, and its search for the place.
use ultimate_db.Prelude.{
  ℕ, suc, ◌+◌, ◌≤◌, ◌≡◌, refl, ◌∙◌, ap, Option, none, some, List, [], ◌∷◌, ◌++◌, length, arith, ◌⊎◌,
  inl, inr, if◌then◌else◌, ltb, nat_eq, Bool-cases,
}
use ultimate_db.Bytes.{bytes_lt}
use ultimate_db.Bytes.Order.{bytes_lt_trans}
use ultimate_db.Memory.{Memory}
use ultimate_db.Page.{page_size}
use ultimate_db.BTree.{is_safe_for_insert, inner_end}
use ultimate_db.BTree.Inner.{Entry, pivot_offset}
use ultimate_db.BTree.Inner.Entries.{
  entry_size, entries_size, EntriesAt, InnerHolds, inner_cell-EntryAt, inner_cell_bytes-EntryAt,
  route,
}

inner_end-EntriesAt :
    (m : Memory) (off : ℕ) (es : List Entry)
    → EntriesAt m off es
    → off + entries_size es ≤ page_size
    → inner_end m (length es) off ≡ some (off + entries_size es)
unfolding inner_end
inner_end-EntriesAt m off [] h le = ap some (omega arith)
inner_end-EntriesAt m off (e ∷ es) h le = ground (
  arith,
  inner_cell_bytes-EntryAt m off e h.0,
  ap (λ n. inner_end m (length es) n) (ap (λ n. off + n) (inner_cell_bytes-EntryAt m off e h.0)),
  inner_end-EntriesAt m (off + entry_size e) es h.1,
)

-- The test of the room is the test on the sizes.
pub is_safe_for_insert-InnerHolds :
    (m : Memory) (es : List Entry) (right n : ℕ)
    → InnerHolds m es right
    → is_safe_for_insert m n ≡ ltb (24 + entries_size es + n) page_size
unfolding is_safe_for_insert
is_safe_for_insert-InnerHolds m es right n h = ground (
  arith,
  h.inner,
  ap (λ k. inner_end m k 24) h.count,
  inner_end-EntriesAt m 24 es h.entries h.room,
)

-- The specification: the child that was found by the pivot is split, its left half keeps the keys
-- below the pivot.
unfoldable pub split_child : List ℕ → ℕ → ℕ → List Entry → ℕ → List Entry × ℕ
split_child pivot left right [] last = (record { child = left; key = pivot } ∷ [], right)
split_child pivot left right (e ∷ es) last =
    let rest = split_child pivot left right es last in
    if bytes_lt pivot e.key
    then (record { child = left; key = pivot } ∷ record { child = right; key = e.key } ∷ es, last)
    else (e ∷ rest.0, rest.1)

-- The number of the child that a key is sent to.
unfoldable pub slot_of : List ℕ → List Entry → ℕ
slot_of key [] = 0
slot_of key (e ∷ es) = let n = slot_of key es in if bytes_lt key e.key then 0 else suc n

-- The keys that were sent to the child that is split are sent to its halves, all others to the
-- child they were sent to before.
pub route-split_child :
    (pivot : List ℕ) (left right : ℕ) (es : List Entry) (last : ℕ) (key : List ℕ)
    → route key (split_child pivot left right es last).0 (split_child pivot left right es last).1
      ≡ (if nat_eq (slot_of key es) (slot_of pivot es)
          then (if bytes_lt key pivot then left else right)
          else route key es last)
unfolding route split_child slot_of
route-split_child pivot left right [] last key = ground arith
route-split_child pivot left right (e ∷ es) last key =
    ground (arith, route-split_child pivot left right es last key, bytes_lt_trans key pivot e.key)

abbrev pub entry_place : List ℕ → ℕ → List Entry → Option ℕ
entry_place key off [] = none
entry_place key off (e ∷ es) =
    if bytes_lt key e.key then some off else entry_place key (off + entry_size e) es

pub pivot_offset-EntriesAt :
    (m : Memory) (key : List ℕ) (off : ℕ) (es : List Entry)
    → EntriesAt m off es
    → off + entries_size es ≤ page_size
    → pivot_offset m key (length es) off ≡ (entry_place key off es, off + entries_size es)
unfolding pivot_offset
pivot_offset-EntriesAt m key off [] h le = ap (λ n. (none, n)) (plus_zero off)
  where
    plus_zero : (n : ℕ) → n ≡ n + 0
    plus_zero n = omega arith
pivot_offset-EntriesAt m key off (e ∷ es) h le = ground (
  arith,
  inner_cell-EntryAt m off e h.0,
  ap (λ n. pivot_offset m key (length es) n)
      (ap (λ n. off + n) (inner_cell_bytes-EntryAt m off e h.0)),
  pivot_offset-EntriesAt m key (off + entry_size e) es h.1,
  assoc off (entry_size e) (entries_size es),
)
  where
    assoc : (a b c : ℕ) → a + b + c ≡ a + (b + c)
    assoc a b c = omega arith

-- The first entry with a greater key.
pub record Spot (pivot : List ℕ) (left right off : ℕ) (es : List Entry) (last : ℕ) : Type 0 where
  pub before : List Entry
  pub here : Entry
  pub after : List Entry
  pub parts : es ≡ before ++ here ∷ after
  pub place : entry_place pivot off es ≡ some (off + entries_size before)
  pub split : split_child pivot left right es last ≡ (
    before
        ++ record { child = left; key = pivot }
          ∷ (record { child = right; key = here.key } ∷ after),
    last,
  )

abbrev pub Behind : List ℕ → ℕ → ℕ → ℕ → List Entry → ℕ → Type 0
Behind pivot left right off es last =
    (entry_place pivot off es ≡ none)
    × (split_child pivot left right es last
        ≡ (es ++ record { child = left; key = pivot } ∷ [], right))

pub Spot-cases :
    (pivot : List ℕ) (left right off : ℕ) (es : List Entry) (last : ℕ)
    → Behind pivot left right off es last ⊎ Spot pivot left right off es last
unfolding split_child
Spot-cases pivot left right off [] last = inl (refl, refl)
Spot-cases pivot left right off (e ∷ es) last = elim (Bool-cases (bytes_lt pivot e.key)) [
  | inl lt ↦ inr (record {
    before = [];
    here = e;
    after = es;
    parts = refl;
    place = rw lt (ap some (plus_zero off));
    split = rw lt refl;
  })
  | inr ge ↦ elim (Spot-cases pivot left right (off + entry_size e) es last) [
    | inl (place, split) ↦ inl (rw ge place, rw ge (ap (λ r. (e ∷ r.0, r.1)) split))
    | inr s ↦ inr (record {
      before = e ∷ s.before;
      here = s.here;
      after = s.after;
      parts = ap (λ r. e ∷ r) s.parts;
      place = rw ge (s.place ∙ ap some (assoc off (entry_size e) (entries_size s.before)));
      split = rw ge (ap (λ r. (e ∷ r.0, r.1)) s.split);
    })
  ]
]
  where
    plus_zero : (n : ℕ) → n ≡ n + 0
    plus_zero n = omega arith

    assoc : (a b c : ℕ) → a + b + c ≡ a + (b + c)
    assoc a b c = omega arith
