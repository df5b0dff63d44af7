-- ===== src/Roaring/Sets.antt =====
-- The bitmaps as sets: what the operations do to membership.
use mathlib.Core.Path.{subst}
use ultimate_db.Prelude.{
  ℕ, ◌/◌, ◌%◌, ◌≡◌, ◌∙◌, ap, refl, Bool, false, not, ◌&&◌, ◌||◌, Option, none, some, List, [], ◌∷◌,
  arith, nat_eq, if◌then◌else◌, Map, lookup, lookup-insert, nat_key, nat_eq_iff, each_entry,
  look-each_entry, Unique, insert-Unique, Option-cases, inl, inr, Bool-cases,
}
use ultimate_db.Roaring.{
  RoaringBitmap, new_roaring_bitmap, list_of, add, put_nonempty, intersect_step, roaring_intersect,
  copy_step, union_step, roaring_union, difference_step, roaring_difference,
}
use ultimate_db.Roaring.Chunk.{
  mem, AscendingFrom, add_sorted, intersect_lists, union_lists, difference_lists, mem-add_sorted,
  mem-intersect, mem-union, mem-difference, add_sorted-AscendingFrom,
}

unfoldable pub member : ℕ → RoaringBitmap → Bool
unfolding mem
member val r = mem (val % 65536) (list_of (lookup (val / 65536) r.chunks))

pub record IsValid (r : RoaringBitmap) : Type 0 where
  pub unique : Unique r.chunks
  pub sorted : (k : ℕ) → AscendingFrom 0 (list_of (lookup k r.chunks))

pub new-IsValid : IsValid new_roaring_bitmap
unfolding lookup
new-IsValid = record { unique = tt; sorted = λ k. tt }

same_value :
    (a b : ℕ) → (nat_eq (a / 65536) (b / 65536) && nat_eq (a % 65536) (b % 65536)) ≡ nat_eq a b
same_value a b = ground arith

add-sorted :
    (val : ℕ) (r : RoaringBitmap)
    → IsValid r
    → (k : ℕ) → AscendingFrom 0 (list_of (lookup k (add val r).chunks))
unfolding add
add-sorted val r h k =
    rw
      (lookup-insert (val / 65536) k
        (add_sorted (val % 65536) (list_of (lookup (val / 65536) r.chunks))) r.chunks)
      (elim (Bool-cases (nat_eq (val / 65536) k)) [
        | inl e ↦ rw e (
            add_sorted-AscendingFrom (val % 65536) 0 (list_of (lookup (val / 65536) r.chunks))
              (h.sorted (val / 65536)) (omega arith))
        | inr e ↦ rw e (h.sorted k)
      ])

add-Unique : (val : ℕ) (r : RoaringBitmap) → Unique r.chunks → Unique (add val r).chunks
unfolding add
add-Unique val r u =
    insert-Unique (val / 65536) (add_sorted (val % 65536) (list_of (lookup (val / 65536) r.chunks)))
      r.chunks u

member-add : (val y : ℕ) (r : RoaringBitmap) → member y (add val r) ≡ (nat_eq val y || member y r)
unfolding member add
member-add val y r = ground (
  arith,
  lookup-insert (val / 65536) (y / 65536)
      (add_sorted (val % 65536) (list_of (lookup (val / 65536) r.chunks))) r.chunks,
  mem-add_sorted (y % 65536) (val % 65536) (list_of (lookup (val / 65536) r.chunks)),
  same_value val y,
  nat_eq_iff (val / 65536) (y / 65536),
  nat_eq_iff (val % 65536) (y % 65536),
)

-- `Add` puts its value in the set and changes nothing else; the bitmap stays valid.
pub add_set :
    (val : ℕ) (r : RoaringBitmap)
    → IsValid r
    → IsValid (add val r) × ((y : ℕ) → member y (add val r) ≡ (nat_eq val y || member y r))
add_set val r h = (
  record { unique = add-Unique val r h.unique; sorted = add-sorted val r h },
  λ y. member-add val y r,
)

-- The chunk that `put_nonempty` leaves: the old one if the list is empty.
abbrev or_old : List ℕ → Option (List ℕ) → Option (List ℕ)
or_old [] w = w
or_old (x ∷ l) w = some (x ∷ l)

lookup-put_nonempty :
    (k j : ℕ) (l : List ℕ) (res : Map ℕ (List ℕ))
    → lookup j (put_nonempty k l res)
      ≡ (if nat_eq k j then or_old l (lookup j res) else lookup j res)
unfolding put_nonempty
lookup-put_nonempty k j [] res = ground arith
lookup-put_nonempty k j (x ∷ l) res = lookup-insert k j (x ∷ l) res

abbrev Chunk : Type 0
Chunk = Option (List ℕ)

-- What each operation makes of one chunk.
abbrev intersected : Map ℕ (List ℕ) → ℕ → List ℕ → Chunk → Chunk
intersected b k l1 w = elim (lookup k b) [ none ↦ w | some l2 ↦ or_old (intersect_lists l1 l2) w ]

abbrev united : ℕ → List ℕ → Chunk → Chunk
united k l2 none = some l2
united k l2 (some l1) = some (union_lists l1 l2)

abbrev reduced : Map ℕ (List ℕ) → ℕ → List ℕ → Chunk → Chunk
reduced b k l1 w = elim (lookup k b) [
  | none ↦ some l1
  | some l2 ↦ or_old (difference_lists l1 l2) w
]

intersect_step-chunk :
    (b : Map ℕ (List ℕ)) (k : ℕ) (l : List ℕ) (res : Map ℕ (List ℕ)) (j : ℕ)
    → lookup j (intersect_step b k l res)
      ≡ (if nat_eq k j then intersected b j l (lookup j res) else lookup j res)
intersect_step-chunk b k l res j = elim (Option-cases (lookup k b)) [
  | inl e ↦ ground (arith, e, nat_eq_iff k j)
  | inr (l2, e) ↦
      ground (arith, e, nat_eq_iff k j, lookup-put_nonempty k j (intersect_lists l l2) res)
]

difference_step-chunk :
    (b : Map ℕ (List ℕ)) (k : ℕ) (l : List ℕ) (res : Map ℕ (List ℕ)) (j : ℕ)
    → lookup j (difference_step b k l res)
      ≡ (if nat_eq k j then reduced b j l (lookup j res) else lookup j res)
difference_step-chunk b k l res j = elim (Option-cases (lookup k b)) [
  | inl e ↦ ground (arith, e, nat_eq_iff k j, lookup-insert k j l res)
  | inr (l2, e) ↦
      ground (arith, e, nat_eq_iff k j, lookup-put_nonempty k j (difference_lists l l2) res)
]

union_step-chunk :
    (k : ℕ) (l : List ℕ) (res : Map ℕ (List ℕ)) (j : ℕ)
    → lookup j (union_step k l res)
      ≡ (if nat_eq k j then united j l (lookup j res) else lookup j res)
union_step-chunk k l res j = elim (Option-cases (lookup k res)) [
  | inl e ↦ ground (arith, e, nat_eq_iff k j, lookup-insert k j l res)
  | inr (l1, e) ↦ ground (arith, e, nat_eq_iff k j, lookup-insert k j (union_lists l1 l) res)
]

copy_step-chunk :
    (k : ℕ) (l : List ℕ) (res : Map ℕ (List ℕ)) (j : ℕ)
    → lookup j (copy_step k l res) ≡ (if nat_eq k j then some l else lookup j res)
copy_step-chunk k l res j = lookup-insert k j l res

mem-or_old : (v : ℕ) (l : List ℕ) → mem v (list_of (or_old l none)) ≡ mem v l
mem-or_old v [] = refl
mem-or_old v (x ∷ l) = refl

mem-nil : (v : ℕ) → mem v [] ≡ false
unfolding mem
mem-nil v = refl

lookup-nil : (k : ℕ) → lookup {V = List ℕ} k [] ≡ none
unfolding lookup
lookup-nil k = refl

module _ (a b : RoaringBitmap) (y : ℕ) (ha : IsValid a) (hb : IsValid b) where
  abbrev v : ℕ
  v = y % 65536

  abbrev k : ℕ
  k = y / 65536

  sorted_at :
      (r : RoaringBitmap) (l : List ℕ) → IsValid r → lookup k r.chunks ≡ some l → AscendingFrom 0 l
  sorted_at r l h e = subst (λ o. AscendingFrom 0 (list_of o)) e (h.sorted k)

  -- `RoaringIntersect` computes the intersection.
  pub member-roaring_intersect : member y (roaring_intersect a b) ≡ (member y a && member y b)
  unfolding member roaring_intersect
  member-roaring_intersect =
      ap (λ c. mem v (list_of c))
        (look-each_entry (intersect_step b.chunks) lookup (intersected b.chunks)
          (intersect_step-chunk b.chunks) a.chunks [] k ha.unique)
      ∙ elim (Option-cases (lookup k a.chunks)) [
        | inl ea ↦ ground (arith, ea, lookup-nil k, mem-nil v)
        | inr (la, ea) ↦ elim (Option-cases (lookup k b.chunks)) [
          | inl eb ↦ ground (arith, ea, eb, lookup-nil k, mem-nil v)
          | inr (lb, eb) ↦ ground (
            arith,
            ea,
            eb,
            lookup-nil k,
            mem-or_old v (intersect_lists la lb),
            mem-intersect v 0 0 la lb (sorted_at a la ha ea) (sorted_at b lb hb eb),
          )
        ]
      ]

  -- `RoaringDifference` computes the difference.
  pub member-roaring_difference :
      member y (roaring_difference a b) ≡ (member y a && not (member y b))
  unfolding member roaring_difference
  member-roaring_difference =
      ap (λ c. mem v (list_of c))
        (look-each_entry (difference_step b.chunks) lookup (reduced b.chunks)
          (difference_step-chunk b.chunks) a.chunks [] k ha.unique)
      ∙ elim (Option-cases (lookup k a.chunks)) [
        | inl ea ↦ ground (arith, ea, lookup-nil k, mem-nil v)
        | inr (la, ea) ↦ elim (Option-cases (lookup k b.chunks)) [
          | inl eb ↦ ground (arith, ea, eb, lookup-nil k, mem-nil v)
          | inr (lb, eb) ↦ ground (
            arith,
            ea,
            eb,
            lookup-nil k,
            mem-or_old v (difference_lists la lb),
            mem-difference v 0 0 la lb (sorted_at a la ha ea) (sorted_at b lb hb eb),
          )
        ]
      ]

  -- `RoaringUnion` computes the union.
  pub member-roaring_union : member y (roaring_union a b) ≡ (member y a || member y b)
  unfolding member roaring_union
  member-roaring_union =
      ap (λ c. mem v (list_of c))
        (look-each_entry union_step lookup united union_step-chunk b.chunks
          (each_entry copy_step a.chunks []) k hb.unique)
      ∙ elim (Option-cases (lookup k a.chunks)) [
        | inl ea ↦ elim (Option-cases (lookup k b.chunks)) [
          | inl eb ↦ ground (arith, ea, eb, copied, lookup-nil k, mem-nil v)
          | inr (lb, eb) ↦ ground (arith, ea, eb, copied, lookup-nil k, mem-nil v)
        ]
        | inr (la, ea) ↦ elim (Option-cases (lookup k b.chunks)) [
          | inl eb ↦ ground (arith, ea, eb, copied, lookup-nil k, mem-nil v)
          | inr (lb, eb) ↦ ground (
            arith,
            ea,
            eb,
            copied,
            lookup-nil k,
            mem-union v 0 0 la lb (sorted_at a la ha ea) (sorted_at b lb hb eb),
          )
        ]
      ]
    where
      copied :
          lookup k (each_entry copy_step a.chunks [])
          ≡ elim (lookup k a.chunks) [ none ↦ lookup k [] | some l ↦ some l ]
      copied =
          look-each_entry copy_step lookup (λ j l w. some l) copy_step-chunk a.chunks [] k ha.unique

-- RoaringIntersect, RoaringUnion and RoaringDifference of two valid bitmaps, one chunk for a key and
-- its list strictly ascending, compute the intersection, the union and the difference.
pub set_operations :
    (a b : RoaringBitmap) (y : ℕ)
    → IsValid a
    → IsValid b
    → (member y (roaring_intersect a b) ≡ (member y a && member y b))
      × (member y (roaring_union a b) ≡ (member y a || member y b))
      × (member y (roaring_difference a b) ≡ (member y a && not (member y b)))
set_operations a b y ha hb = (
  member-roaring_intersect a b y ha hb,
  member-roaring_union a b y ha hb,
  member-roaring_difference a b y ha hb,
)
