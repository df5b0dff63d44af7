-- ===== src/BTree/Inner/Entries.antt =====
-- The abstract view of an inner page: the list of its entries and the rightmost child.
use mathlib.Core.Path.{subst}
use ultimate_db.Prelude.{
  ℕ, ◌+◌, ◌≤◌, ◌≡◌, refl, ◌∙◌, ap, Option, none, some, List, [], ◌∷◌, ◌++◌, length, arith,
  if◌then◌else◌,
}
use ultimate_db.Bytes.{bytes_lt}
use ultimate_db.Memory.{Memory, get_word, read_bytes}
use ultimate_db.Page.{page_size}
use ultimate_db.BTree.{
  page_type, page_type_internal, num_cells, rightmost_child_id, inner_cell_bytes,
}
use ultimate_db.BTree.Leaf.Cells.{Moved, read_bytes-Moved, get_word-Moved, Moved-part}
use ultimate_db.BTree.Inner.{Entry, inner_cell, child_before, find_child_in_internal_node}

abbrev pub entry_size : Entry → ℕ
entry_size e = 10 + length e.key

abbrev pub entries_size : List Entry → ℕ
entries_size [] = 0
entries_size (e ∷ es) = entry_size e + entries_size es

pub record EntryAt (m : Memory) (off : ℕ) (e : Entry) : Type 0 where
  pub key_size : get_word 2 m off ≡ length e.key
  pub child_word : get_word 8 m (off + 2) ≡ e.child
  pub key_bytes : read_bytes m (off + 10) (length e.key) ≡ e.key

abbrev pub EntriesAt : Memory → ℕ → List Entry → Type 0
EntriesAt m off [] = Unit
EntriesAt m off (e ∷ es) = EntryAt m off e × EntriesAt m (off + entry_size e) es

-- The inner page `m` holds the entries `es`, and `right` is its rightmost child.
pub record InnerHolds (m : Memory) (es : List Entry) (right : ℕ) : Type 0 where
  pub inner : page_type m ≡ page_type_internal
  pub count : num_cells m ≡ length es
  pub room : 24 + entries_size es ≤ page_size
  pub entries : EntriesAt m 24 es
  pub rightmost : rightmost_child_id m ≡ right

pub inner_cell-EntryAt :
    (m : Memory) (off : ℕ) (e : Entry)
    → EntryAt m off e
    → off + entry_size e ≤ page_size
    → inner_cell m off ≡ some e
unfolding inner_cell
inner_cell-EntryAt m off e h le = ground (arith, h.key_size, h.child_word, h.key_bytes)

pub inner_cell_bytes-EntryAt :
    (m : Memory) (off : ℕ) (e : Entry) → EntryAt m off e → inner_cell_bytes m off ≡ entry_size e
inner_cell_bytes-EntryAt m off e h = omega (arith, h.key_size)

-- The search on the list: the child before the first greater key.
unfoldable pub route : List ℕ → List Entry → ℕ → ℕ
route key [] right = right
route key (e ∷ es) right = if bytes_lt key e.key then e.child else route key es right

abbrev or_right : ℕ → Option ℕ → ℕ
or_right right none = right
or_right right (some id) = id

child_before-EntriesAt :
    (m : Memory) (key : List ℕ) (off : ℕ) (es : List Entry) (right : ℕ)
    → EntriesAt m off es
    → off + entries_size es ≤ page_size
    → or_right right (child_before m key (length es) off) ≡ route key es right
unfolding child_before route
child_before-EntriesAt m key off [] right h le = refl
child_before-EntriesAt m key off (e ∷ es) right h le = ground (
  arith,
  inner_cell-EntryAt m off e h.0,
  ap (λ n. child_before m key (length es) n)
      (ap (λ n. off + n) (inner_cell_bytes-EntryAt m off e h.0)),
  child_before-EntriesAt m key (off + entry_size e) es right h.1,
)

-- The search in an inner page is the search in the list of its entries.
pub find_child-route :
    (m : Memory) (key : List ℕ) (es : List Entry) (right : ℕ)
    → InnerHolds m es right
    → find_child_in_internal_node m key ≡ route key es right
unfolding find_child_in_internal_node
find_child-route m key es right h = ground (
  arith,
  h.rightmost,
  ap (λ n. child_before m key n 24) h.count,
  child_before-EntriesAt m key 24 es right h.entries h.room,
)

module _ (m m' : Memory) where
  pub EntryAt-Moved :
      (from to : ℕ) (e : Entry)
      → Moved m from m' to (entry_size e)
      → EntryAt m from e
      → EntryAt m' to e
  EntryAt-Moved from to e h at = record {
    key_size = get_word-Moved m m' 2 from to (λ j lt. h j (omega arith)) ∙ at.key_size;
    child_word =
        get_word-Moved m m' 8 (from + 2) (to + 2)
          (Moved-part m m' from to (entry_size e) 2 8 (omega arith) h)
        ∙ at.child_word;
    key_bytes =
        read_bytes-Moved m m' (from + 10) (to + 10) (length e.key)
          (Moved-part m m' from to (entry_size e) 10 (length e.key) (omega arith) h)
        ∙ at.key_bytes;
  }

  pub EntriesAt-Moved :
      (from to : ℕ) (es : List Entry)
      → Moved m from m' to (entries_size es)
      → EntriesAt m from es
      → EntriesAt m' to es
  EntriesAt-Moved from to [] h at = tt
  EntriesAt-Moved from to (e ∷ es) h at = (
    EntryAt-Moved from to e (λ j lt. h j (omega arith)) at.0,
    EntriesAt-Moved (from + entry_size e) (to + entry_size e) es
        (Moved-part m m' from to (entry_size e + entries_size es) (entry_size e) (entries_size es)
          (omega arith) h)
        at.1,
  )

pub entries_size-append :
    (xs ys : List Entry) → entries_size (xs ++ ys) ≡ entries_size xs + entries_size ys
entries_size-append [] ys = omega arith
entries_size-append (e ∷ xs) ys = omega (arith, entries_size-append xs ys)

pub length-le-entries_size : (es : List Entry) → length es ≤ entries_size es
length-le-entries_size [] = omega arith
length-le-entries_size (e ∷ es) = omega (arith, length-le-entries_size es)

pub EntriesAt-append :
    (m : Memory) (off : ℕ) (xs ys : List Entry)
    → EntriesAt m off xs
    → EntriesAt m (off + entries_size xs) ys
    → EntriesAt m off (xs ++ ys)
EntriesAt-append m off [] ys h k = subst (λ i. EntriesAt m i ys) (plus_zero off) k
  where
    plus_zero : (n : ℕ) → n + 0 ≡ n
    plus_zero n = omega arith
EntriesAt-append m off (e ∷ xs) ys h k = (
  h.0,
  EntriesAt-append m (off + entry_size e) xs ys h.1
      (subst (λ i. EntriesAt m i ys) (assoc off (entry_size e) (entries_size xs)) k),
)
  where
    assoc : (a b c : ℕ) → a + (b + c) ≡ a + b + c
    assoc a b c = omega arith

pub EntriesAt-split :
    (m : Memory) (off : ℕ) (xs ys : List Entry)
    → EntriesAt m off (xs ++ ys)
    → EntriesAt m off xs × EntriesAt m (off + entries_size xs) ys
EntriesAt-split m off [] ys h = (tt, subst (λ i. EntriesAt m i ys) (plus_zero off) h)
  where
    plus_zero : (n : ℕ) → n ≡ n + 0
    plus_zero n = omega arith
EntriesAt-split m off (e ∷ xs) ys h =
    let (a, b) = EntriesAt-split m (off + entry_size e) xs ys h.1 in
    ((h.0, a), subst (λ i. EntriesAt m i ys) (assoc off (entry_size e) (entries_size xs)) b)
  where
    assoc : (a b c : ℕ) → a + b + c ≡ a + (b + c)
    assoc a b c = omega arith
