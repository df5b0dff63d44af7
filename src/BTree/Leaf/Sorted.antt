-- ===== src/BTree/Leaf/Sorted.antt =====
-- The cells of a leaf as a map in the order of its keys.
use ultimate_db.Prelude.{
  refl, ℕ, ◌≡◌, ◌∙◌, true, Option, none, some, List, [], ◌∷◌, arith, if◌then◌else◌, Bool-cases, inl,
  inr, All, bytes_eq, bytes_eq_iff, bytes_eq_refl,
}
use ultimate_db.Bytes.{bytes_lt}
use ultimate_db.Bytes.Order.{bytes_lt_irrefl, bytes_lt_trans, bytes_lt_total}
use ultimate_db.BTree.{Cell}
use ultimate_db.BTree.Leaf.Find.{without}
use ultimate_db.BTree.Leaf.Place.{insert_cell}

-- The value of the first cell with the key.
unfoldable pub lookup_cell : List ℕ → List Cell → Option (List ℕ)
lookup_cell key [] = none
lookup_cell key (c ∷ cs) = if bytes_eq key c.key then some c.value else lookup_cell key cs

pub lookup-without :
    (key j : List ℕ) (cs : List Cell)
    → lookup_cell j (without key cs) ≡ (if bytes_eq key j then none else lookup_cell j cs)
unfolding lookup_cell without
lookup-without key j [] = ground arith
lookup-without key j (c ∷ cs) = ground (
  arith,
  lookup-without key j cs,
  bytes_eq_iff key c.key,
  bytes_eq_iff j c.key,
  bytes_eq_iff key j,
)

lookup-insert_cell_absent :
    (c : Cell) (j : List ℕ) (cs : List Cell)
    → lookup_cell c.key cs ≡ none
    → lookup_cell j (insert_cell c cs)
      ≡ (if bytes_eq c.key j then some c.value else lookup_cell j cs)
unfolding lookup_cell insert_cell
lookup-insert_cell_absent c j [] h = ground (arith, bytes_eq_iff c.key j, bytes_eq_iff j c.key)
lookup-insert_cell_absent c j (d ∷ cs) h = ground (
  arith,
  h,
  lookup-insert_cell_absent c j cs,
  bytes_eq_iff c.key j,
  bytes_eq_iff j c.key,
  bytes_eq_iff c.key d.key,
  bytes_eq_iff j d.key,
)

-- A put on the list of cells is a put on the map.
pub lookup-insert_cell :
    (c : Cell) (j : List ℕ) (cs : List Cell)
    → lookup_cell j (insert_cell c (without c.key cs))
      ≡ (if bytes_eq c.key j then some c.value else lookup_cell j cs)
lookup-insert_cell c j cs =
    lookup-insert_cell_absent c j (without c.key cs)
      (lookup-without c.key c.key cs ∙ ground (arith, bytes_eq_refl c.key))
    ∙ ground (arith, lookup-without c.key j cs)

abbrev pub Above : List ℕ → List Cell → Type 0
Above key cs = All (λ d. bytes_lt key d.key ≡ true) cs

-- The keys ascend strictly, so no key has two cells.
abbrev pub Sorted : List Cell → Type 0
Sorted [] = Unit
Sorted (c ∷ cs) = Above c.key cs × Sorted cs

pub Above-trans : (a b : List ℕ) (cs : List Cell) → bytes_lt a b ≡ true → Above b cs → Above a cs
Above-trans a b [] lt h = tt
Above-trans a b (d ∷ cs) lt h = (bytes_lt_trans a b d.key lt h.0, Above-trans a b cs lt h.1)

Above-without : (a key : List ℕ) (cs : List Cell) → Above a cs → Above a (without key cs)
unfolding without
Above-without a key [] h = tt
Above-without a key (d ∷ cs) h = elim (Bool-cases (bytes_eq key d.key)) [
  | inl e ↦ rw e (Above-without a key cs h.1)
  | inr e ↦ rw e (h.0, Above-without a key cs h.1)
]

pub without-Sorted : (key : List ℕ) (cs : List Cell) → Sorted cs → Sorted (without key cs)
unfolding without
without-Sorted key [] h = tt
without-Sorted key (d ∷ cs) h = elim (Bool-cases (bytes_eq key d.key)) [
  | inl e ↦ rw e (without-Sorted key cs h.1)
  | inr e ↦ rw e (Above-without d.key key cs h.0, without-Sorted key cs h.1)
]

Above-insert_cell :
    (a : List ℕ) (c : Cell) (cs : List Cell)
    → bytes_lt a c.key ≡ true
    → Above a cs
    → Above a (insert_cell c cs)
unfolding insert_cell
Above-insert_cell a c [] lt h = (lt, tt)
Above-insert_cell a c (d ∷ cs) lt h = elim (Bool-cases (bytes_lt c.key d.key)) [
  | inl e ↦ rw e (lt, h)
  | inr e ↦ rw e (h.0, Above-insert_cell a c cs lt h.1)
]

insert_cell-Sorted_absent :
    (c : Cell) (cs : List Cell)
    → lookup_cell c.key cs ≡ none
    → Sorted cs
    → Sorted (insert_cell c cs)
unfolding insert_cell lookup_cell
insert_cell-Sorted_absent c [] e h = (tt, tt)
insert_cell-Sorted_absent c (d ∷ cs) e h = elim (Bool-cases (bytes_lt c.key d.key)) [
  | inl lt ↦ rw lt ((lt, Above-trans c.key d.key cs lt h.0), h)
  | inr ge ↦ rw ge (
    Above-insert_cell d.key c cs (bytes_lt_total c.key d.key ge (ground (arith, e))) h.0,
    insert_cell-Sorted_absent c cs (ground (arith, e)) h.1,
  )
]

-- A put keeps the keys in strict order.
pub insert_cell-Sorted :
    (c : Cell) (cs : List Cell) → Sorted cs → Sorted (insert_cell c (without c.key cs))
insert_cell-Sorted c cs h =
    insert_cell-Sorted_absent c (without c.key cs)
      (lookup-without c.key c.key cs ∙ ground (arith, bytes_eq_refl c.key))
      (without-Sorted c.key cs h)

-- A key below all keys has no value.
pub lookup-Above :
    (j key : List ℕ) (cs : List Cell)
    → Above key cs
    → bytes_lt j key ≡ true
    → lookup_cell j cs ≡ none
unfolding lookup_cell
lookup-Above j key [] h lt = refl
lookup-Above j key (c ∷ cs) h lt = ground (
  arith,
  lookup-Above j key cs h.1 lt,
  bytes_eq_iff j c.key,
  bytes_lt_trans j key c.key lt h.0,
  bytes_lt_irrefl j,
)
