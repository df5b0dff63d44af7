-- ===== src/Roaring/Listed.antt =====
-- roaring.go: `ToArray`, the values of a bitmap in ascending order.
use ultimate_db.Prelude.{
  ℕ, suc, ◌+◌, ◌*◌, ◌/◌, ◌%◌, ◌^◌, ◌≤◌, ◌<◌, ◌≡◌, ap, ◌∙◌, refl, false, ◌&&◌, none, List, [], ◌∷◌,
  ◌++◌, arith, leb, nat_eq, nat_eq_iff, split_if, Map, lookup, nat_key, Unique, All, Bool-cases,
  inl, inr,
}
use ultimate_db.Roaring.{RoaringBitmap, list_of}
use ultimate_db.Roaring.Chunk.{mem, mem-append, AscendingFrom, AscendingFrom-le}
use ultimate_db.Roaring.Sets.{member, IsValid}
use ultimate_db.Index.Segment.Sorting.{sort_ids, insert_sorted, mem-sort_ids}

abbrev pub chunk_keys : Map ℕ (List ℕ) → List ℕ
chunk_keys [] = []
chunk_keys ((k, l) ∷ m) = k ∷ chunk_keys m

-- (k << 16) | uint64(lsb): the low half of the shifted key is 0
abbrev pub joined_halves : ℕ → List ℕ → List ℕ
joined_halves k [] = []
joined_halves k (lsb ∷ l) = ((k * 65536) % 2 ^ 64 + lsb) ∷ joined_halves k l

unfoldable pub values_of : Map ℕ (List ℕ) → List ℕ → List ℕ
values_of m [] = []
values_of m (k ∷ keys) = joined_halves k (list_of (lookup k m)) ++ values_of m keys

unfoldable pub to_array : RoaringBitmap → List ℕ
unfolding values_of
to_array r = values_of r.chunks (sort_ids (chunk_keys r.chunks))

-- The keys have 48 bits and the values 16.
pub record IsHalved (r : RoaringBitmap) : Type 0 where
  pub keys : All (λ k. k < 2 ^ 48) (sort_ids (chunk_keys r.chunks))
  pub halves : (k : ℕ) → All (λ v. v < 65536) (list_of (lookup k r.chunks))

mem-joined_halves :
    (y k : ℕ) (l : List ℕ)
    → k < 2 ^ 48
    → All (λ v. v < 65536) l
    → mem y (joined_halves k l) ≡ (nat_eq k (y / 65536) && mem (y % 65536) l)
unfolding mem
mem-joined_halves y k [] h a = ground arith
mem-joined_halves y k (v ∷ l) h a = ground (arith, mem-joined_halves y k l h a.1, a.0, h)

mem-values_of :
    (y : ℕ) (m : Map ℕ (List ℕ)) (keys : List ℕ)
    → All (λ k. k < 2 ^ 48) keys
    → ((k : ℕ) → All (λ v. v < 65536) (list_of (lookup k m)))
    → mem y (values_of m keys)
      ≡ (mem (y / 65536) keys && mem (y % 65536) (list_of (lookup (y / 65536) m)))
unfolding values_of mem
mem-values_of y m [] h a = refl
mem-values_of y m (k ∷ keys) h a = elim (Bool-cases (nat_eq k (y / 65536))) [
  | inl e ↦ ground (
    arith,
    e,
    ap (λ j. lookup j m) ((nat_eq_iff k (y / 65536)).0 e),
    mem-append y (joined_halves k (list_of (lookup k m))) (values_of m keys),
    mem-joined_halves y k (list_of (lookup k m)) h.0 (a k),
    mem-values_of y m keys h.1 a,
  )
  | inr e ↦ ground (
    arith,
    e,
    mem-append y (joined_halves k (list_of (lookup k m))) (values_of m keys),
    mem-joined_halves y k (list_of (lookup k m)) h.0 (a k),
    mem-values_of y m keys h.1 a,
  )
]

lookup-chunk_keys : (k : ℕ) (m : Map ℕ (List ℕ)) → mem k (chunk_keys m) ≡ false → lookup k m ≡ none
unfolding mem lookup
lookup-chunk_keys k [] h = refl
lookup-chunk_keys k ((j, l) ∷ m) h = ground (arith, h, lookup-chunk_keys k m)

mem-to_array : (y : ℕ) (r : RoaringBitmap) → IsHalved r → mem y (to_array r) ≡ member y r
unfolding to_array member
mem-to_array y r h = elim (Bool-cases (mem (y / 65536) (chunk_keys r.chunks))) [
  | inl e ↦ ground (
    arith,
    e,
    mem-values_of y r.chunks (sort_ids (chunk_keys r.chunks)) h.keys h.halves,
    mem-sort_ids (y / 65536) (chunk_keys r.chunks),
  )
  | inr e ↦ ground (
    arith,
    e,
    mem-values_of y r.chunks (sort_ids (chunk_keys r.chunks)) h.keys h.halves,
    mem-sort_ids (y / 65536) (chunk_keys r.chunks),
    lookup-chunk_keys (y / 65536) r.chunks e,
    nothing,
  )
]
  where
    nothing : mem (y % 65536) [] ≡ false
    nothing = unfold mem in refl

insert-AscendingFrom :
    (lo x : ℕ) (l : List ℕ)
    → AscendingFrom lo l
    → lo ≤ x
    → mem x l ≡ false
    → AscendingFrom lo (insert_sorted (λ a b. leb a b) x l)
unfolding mem
insert-AscendingFrom lo x [] a h n = (h, tt)
insert-AscendingFrom lo x (y ∷ l) a h n =
    split_if (AscendingFrom lo) (leb y x) _ _
      (λ e. (a.0, insert-AscendingFrom (suc y) x l a.1 (ground (arith, e, n)) (ground (arith, n))))
      (λ e. (h, (ground (arith, e), a.1)))

mem-chunk_keys : (k : ℕ) (m : Map ℕ (List ℕ)) → lookup k m ≡ none → mem k (chunk_keys m) ≡ false
unfolding mem lookup
mem-chunk_keys k [] h = refl
mem-chunk_keys k ((j, l) ∷ m) h = ground (arith, h, mem-chunk_keys k m)

sort_ids-AscendingFrom : (m : Map ℕ (List ℕ)) → Unique m → AscendingFrom 0 (sort_ids (chunk_keys m))
unfolding sort_ids
sort_ids-AscendingFrom [] u = tt
sort_ids-AscendingFrom ((k, l) ∷ m) u =
    insert-AscendingFrom 0 k (sort_ids (chunk_keys m)) (sort_ids-AscendingFrom m u.1) (omega arith)
      (mem-sort_ids k (chunk_keys m) ∙ mem-chunk_keys k m u.0)

joined_halves-AscendingFrom :
    (k lo : ℕ) (l rest : List ℕ)
    → k < 2 ^ 48
    → lo ≤ 65536
    → All (λ v. v < 65536) l
    → AscendingFrom lo l
    → AscendingFrom ((k + 1) * 65536) rest
    → AscendingFrom (k * 65536 + lo) (joined_halves k l ++ rest)
joined_halves-AscendingFrom k lo [] rest h le a s r =
    AscendingFrom-le (k * 65536 + lo) ((k + 1) * 65536) rest (omega (arith, le)) r
joined_halves-AscendingFrom k lo (v ∷ l) rest h le a s r = (
  omega (arith, h, s.0),
  AscendingFrom-le (suc ((k * 65536) % 2 ^ 64 + v)) (k * 65536 + suc v) (joined_halves k l ++ rest)
      (omega (arith, h))
      (joined_halves-AscendingFrom k (suc v) l rest h (omega (arith, a.0)) a.1 s.1 r),
)

values_of-AscendingFrom :
    (m : Map ℕ (List ℕ)) (lo : ℕ) (keys : List ℕ)
    → All (λ k. k < 2 ^ 48) keys
    → ((k : ℕ) → All (λ v. v < 65536) (list_of (lookup k m)))
    → ((k : ℕ) → AscendingFrom 0 (list_of (lookup k m)))
    → AscendingFrom lo keys
    → AscendingFrom (lo * 65536) (values_of m keys)
unfolding values_of
values_of-AscendingFrom m lo [] h a s k = tt
values_of-AscendingFrom m lo (j ∷ keys) h a s k =
    AscendingFrom-le (lo * 65536) (j * 65536 + 0)
      (joined_halves j (list_of (lookup j m)) ++ values_of m keys) (omega (arith, k.0))
      (joined_halves-AscendingFrom j 0 (list_of (lookup j m)) (values_of m keys) h.0 (omega arith)
        (a j) (s j)
        (AscendingFrom-le ((j + 1) * 65536) (suc j * 65536) (values_of m keys) (omega arith)
          (values_of-AscendingFrom m (suc j) keys h.1 a s k.1)))

-- `ToArray` of a valid bitmap lists its members, in ascending order and each once, if its keys have
-- 48 bits and its values 16.
pub to_array-member :
    (r : RoaringBitmap)
    → IsValid r
    → IsHalved r
    → AscendingFrom 0 (to_array r) × ((y : ℕ) → mem y (to_array r) ≡ member y r)
unfolding to_array
to_array-member r v h = (
  values_of-AscendingFrom r.chunks 0 (sort_ids (chunk_keys r.chunks)) h.keys h.halves v.sorted
      (sort_ids-AscendingFrom r.chunks v.unique),
  λ y. mem-to_array y r h,
)
