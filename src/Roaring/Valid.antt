-- ===== src/Roaring/Valid.antt =====
-- Validity of what roaring.go's set operations return.
use mathlib.Core.Path.{subst}
use ultimate_db.Prelude.{
  ℕ, suc, ◌≤◌, ◌≡◌, sym, refl, Bool, true, false, Option, none, some, List, [], ◌∷◌, arith, ltb,
  nat_eq, Map, insert, nat_key, Unique, insert-Unique, each_entry, lookup, lookup-insert, All,
  nat_eq_iff, split_if, Bool-cases, inl, inr,
}
use ultimate_db.Roaring.{
  RoaringBitmap, list_of, put_nonempty, intersect_step, roaring_intersect, copy_step, union_step,
  roaring_union, difference_step, roaring_difference,
}
use ultimate_db.Roaring.Chunk.{
  AscendingFrom, AscendingFrom-le, intersect_lists, union_lists, difference_lists,
}
use ultimate_db.Roaring.Sets.{IsValid}

split :
    (P : List ℕ → Type 0) (b : Bool) (xs ys : List ℕ)
    → (b ≡ true → P xs)
    → (b ≡ false → P ys)
    → P (elim b [ true ↦ xs | false ↦ ys ])
split P true xs ys h k = h refl
split P false xs ys h k = k refl

intersect-AscendingFrom :
    (a b lo : ℕ) (xs ys : List ℕ)
    → AscendingFrom a xs
    → AscendingFrom b ys
    → lo ≤ a
    → lo ≤ b
    → AscendingFrom lo (intersect_lists xs ys)
unfolding intersect_lists
intersect-AscendingFrom a b lo [] ys hx hy la lb = tt
intersect-AscendingFrom a b lo (x ∷ xs) [] hx hy la lb = tt
intersect-AscendingFrom a b lo (x ∷ xs) (y ∷ ys) hx hy la lb =
    split (AscendingFrom lo) (ltb x y) _ _
      (λ e. intersect-AscendingFrom (suc x) b lo xs (y ∷ ys) hx.1 hy (omega arith) lb)
      (λ e.
        split (AscendingFrom lo) (ltb y x) _ _
          (λ f. intersect-AscendingFrom a (suc y) lo (x ∷ xs) ys hx hy.1 la (omega arith))
          (λ f. (
            omega arith,
            intersect-AscendingFrom (suc x) (suc y) (suc x) xs ys hx.1 hy.1 (omega arith)
                (ground arith),
          )))

union-AscendingFrom :
    (a b lo : ℕ) (xs ys : List ℕ)
    → AscendingFrom a xs
    → AscendingFrom b ys
    → lo ≤ a
    → lo ≤ b
    → AscendingFrom lo (union_lists xs ys)
unfolding union_lists
union-AscendingFrom a b lo [] ys hx hy la lb = AscendingFrom-le lo b ys lb hy
union-AscendingFrom a b lo (x ∷ xs) [] hx hy la lb = AscendingFrom-le lo a (x ∷ xs) la hx
union-AscendingFrom a b lo (x ∷ xs) (y ∷ ys) hx hy la lb =
    split (AscendingFrom lo) (ltb x y) _ _
      (λ e. (
        omega arith,
        union-AscendingFrom (suc x) y (suc x) xs (y ∷ ys) hx.1 (omega arith, hy.1) (omega arith)
            (ground arith),
      ))
      (λ e.
        split (AscendingFrom lo) (ltb y x) _ _
          (λ f. (
            omega arith,
            union-AscendingFrom x (suc y) (suc y) (x ∷ xs) ys (omega arith, hx.1) hy.1
                (ground arith) (omega arith),
          ))
          (λ f. (
            omega arith,
            union-AscendingFrom (suc x) (suc y) (suc x) xs ys hx.1 hy.1 (omega arith)
                (ground arith),
          )))

difference-AscendingFrom :
    (a b lo : ℕ) (xs ys : List ℕ)
    → AscendingFrom a xs
    → AscendingFrom b ys
    → lo ≤ a
    → AscendingFrom lo (difference_lists xs ys)
unfolding difference_lists
difference-AscendingFrom a b lo [] ys hx hy la = tt
difference-AscendingFrom a b lo (x ∷ xs) [] hx hy la = AscendingFrom-le lo a (x ∷ xs) la hx
difference-AscendingFrom a b lo (x ∷ xs) (y ∷ ys) hx hy la =
    split (AscendingFrom lo) (ltb x y) _ _
      (λ e.
        (omega arith, difference-AscendingFrom (suc x) b (suc x) xs (y ∷ ys) hx.1 hy (omega arith)))
      (λ e.
        split (AscendingFrom lo) (ltb y x) _ _
          (λ f. difference-AscendingFrom a (suc y) lo (x ∷ xs) ys hx hy.1 la)
          (λ f. difference-AscendingFrom (suc x) (suc y) lo xs ys hx.1 hy.1 (omega arith)))

-- Every chunk of a map is strictly ascending.
abbrev Sorted : Map ℕ (List ℕ) → Type 0
Sorted m = (k : ℕ) → AscendingFrom 0 (list_of (lookup k m))

abbrev Fine : Map ℕ (List ℕ) → Type 0
Fine m = Unique m × Sorted m

insert-Fine :
    (k : ℕ) (l : List ℕ) (m : Map ℕ (List ℕ)) → AscendingFrom 0 l → Fine m → Fine (insert k l m)
insert-Fine k l m a h = (
  insert-Unique k l m h.0,
  λ j.
      subst (λ o. AscendingFrom 0 (list_of o)) (sym (lookup-insert k j l m))
        (split_if (λ o. AscendingFrom 0 (list_of o)) (nat_eq k j) _ _ (λ e. a) (λ e. h.1 j)),
)

put_nonempty-Fine :
    (k : ℕ) (l : List ℕ) (m : Map ℕ (List ℕ))
    → AscendingFrom 0 l
    → Fine m
    → Fine (put_nonempty k l m)
unfolding put_nonempty
put_nonempty-Fine k [] m a h = h
put_nonempty-Fine k (x ∷ l) m a h = insert-Fine k (x ∷ l) m a h

-- A loop over the entries keeps what each round keeps, if it holds of the entry's chunk.
each_entry-Fine :
    (step : ℕ → List ℕ → Map ℕ (List ℕ) → Map ℕ (List ℕ))
    → ((k : ℕ) (l : List ℕ) (r : Map ℕ (List ℕ)) → AscendingFrom 0 l → Fine r → Fine (step k l r))
    → (m r : Map ℕ (List ℕ)) → All (λ e. AscendingFrom 0 e.1) m
    → Fine r
    → Fine (each_entry step m r)
unfolding each_entry
each_entry-Fine step keep [] r a h = h
each_entry-Fine step keep ((k, l) ∷ m) r a h =
    each_entry-Fine step keep m (step k l r) a.1 (keep k l r a.0 h)

found : (k : ℕ) (l : List ℕ) (m : Map ℕ (List ℕ)) → lookup k ((k, l) ∷ m) ≡ some l
unfolding lookup
found k l m = ground (arith, nat_eq_iff k k)

gone :
    (k : ℕ) (l : List ℕ) (m : Map ℕ (List ℕ)) (j : ℕ)
    → lookup k m ≡ none
    → nat_eq k j ≡ true
    → none ≡ lookup j m
gone k l m j h e = ground (arith, nat_eq_iff k j)

other :
    (k : ℕ) (l : List ℕ) (m : Map ℕ (List ℕ)) (j : ℕ)
    → nat_eq k j ≡ false
    → lookup j ((k, l) ∷ m) ≡ lookup j m
unfolding lookup
other k l m j e = ground (arith, e)

-- In a map with one entry for a key, what holds of the chunks looked up holds of the entries.
entries : (m : Map ℕ (List ℕ)) → Fine m → All (λ e. AscendingFrom 0 e.1) m
entries [] h = tt
entries ((k, l) ∷ m) h = (
  subst (λ o. AscendingFrom 0 (list_of o)) (found k l m) (h.1 k),
  entries m (
    h.0.1,
    λ j. elim (Bool-cases (nat_eq k j)) [
      | inl e ↦ subst (λ o. AscendingFrom 0 (list_of o)) (gone k l m j h.0.0 e) tt
      | inr e ↦ subst (λ o. AscendingFrom 0 (list_of o)) (other k l m j e) (h.1 j)
    ],
  ),
)

-- To split on a chunk looked up, which is strictly ascending.
chunk_of :
    (k : ℕ) (m : Map ℕ (List ℕ)) (h : Fine m) (P : Option (List ℕ) → Type 0)
    → P none
    → ((l : List ℕ) → AscendingFrom 0 l → P (some l))
    → P (lookup k m)
chunk_of k m h P absent present = go (lookup k m) (h.1 k)
  where
    go : (o : Option (List ℕ)) → AscendingFrom 0 (list_of o) → P o
    go none c = absent
    go (some l) c = present l c

intersect_step-Fine :
    (b : Map ℕ (List ℕ)) (k : ℕ) (l : List ℕ) (r : Map ℕ (List ℕ))
    → Fine b
    → AscendingFrom 0 l
    → Fine r
    → Fine (intersect_step b k l r)
intersect_step-Fine b k l r hb a h =
    chunk_of k b hb
      (λ o. Fine (elim o [ none ↦ r | some l2 ↦ put_nonempty k (intersect_lists l l2) r ])) h
      (λ l2 c.
        put_nonempty-Fine k (intersect_lists l l2) r
          (intersect-AscendingFrom 0 0 0 l l2 a c (omega arith) (omega arith)) h)

difference_step-Fine :
    (b : Map ℕ (List ℕ)) (k : ℕ) (l : List ℕ) (r : Map ℕ (List ℕ))
    → Fine b
    → AscendingFrom 0 l
    → Fine r
    → Fine (difference_step b k l r)
difference_step-Fine b k l r hb a h =
    chunk_of k b hb
      (λ o.
        Fine (elim o [ none ↦ insert k l r | some l2 ↦ put_nonempty k (difference_lists l l2) r ]))
      (insert-Fine k l r a h)
      (λ l2 c.
        put_nonempty-Fine k (difference_lists l l2) r
          (difference-AscendingFrom 0 0 0 l l2 a c (omega arith)) h)

union_step-Fine :
    (k : ℕ) (l : List ℕ) (r : Map ℕ (List ℕ)) → AscendingFrom 0 l → Fine r → Fine (union_step k l r)
union_step-Fine k l r a h =
    chunk_of k r h
      (λ o. Fine (elim o [ none ↦ insert k l r | some l1 ↦ insert k (union_lists l1 l) r ]))
      (insert-Fine k l r a h)
      (λ l1 c.
        insert-Fine k (union_lists l1 l) r
          (union-AscendingFrom 0 0 0 l1 l c a (omega arith) (omega arith)) h)

fine : (r : RoaringBitmap) → IsValid r → Fine r.chunks
fine r h = (h.unique, h.sorted)

valid : (m : Map ℕ (List ℕ)) → Fine m → IsValid (record { chunks = m })
valid m h = record { unique = h.0; sorted = h.1 }

nothing : Fine []
nothing = (tt, λ k. unfold lookup in tt)

-- Intersection, union and difference of valid bitmaps are valid.
pub set_operations-IsValid :
    (a b : RoaringBitmap)
    → IsValid a
    → IsValid b
    → IsValid (roaring_intersect a b)
      × IsValid (roaring_union a b)
      × IsValid (roaring_difference a b)
unfolding roaring_intersect roaring_union roaring_difference
set_operations-IsValid a b ha hb = (
  valid _ (
      each_entry-Fine (intersect_step b.chunks)
        (λ k l r. intersect_step-Fine b.chunks k l r (fine b hb)) a.chunks []
        (entries a.chunks (fine a ha)) nothing),
  valid _ (
      each_entry-Fine union_step union_step-Fine b.chunks _ (entries b.chunks (fine b hb))
        (each_entry-Fine copy_step insert-Fine a.chunks [] (entries a.chunks (fine a ha)) nothing)),
  valid _ (
      each_entry-Fine (difference_step b.chunks)
        (λ k l r. difference_step-Fine b.chunks k l r (fine b hb)) a.chunks []
        (entries a.chunks (fine a ha)) nothing),
)
