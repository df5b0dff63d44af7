-- ===== src/Roaring/Chunk.antt =====
-- The sorted lists of one chunk: insertion, and the three two-pointer merges. A pointer into a
-- list is the rest of the list from there on.
use ultimate_db.Prelude.{
  ℕ, suc, ◌≤◌, ◌<◌, ◌≡◌, refl, Bool, true, false, not, ◌&&◌, ◌||◌, Option, none, some, List, [],
  ◌∷◌, ◌++◌, ltb, leb, nat_eq, if◌then◌else◌, split_if, arith, take, drop, get_elem?,
}

-- sort.Search(len(l), func(i) { return l[i] >= v }): the least index where the test holds, which
-- is what `sort.Search` documents for a sorted list.
unfoldable pub search : ℕ → List ℕ → ℕ
search v [] = 0
search v (x ∷ l) = if leb v x then 0 else suc (search v l)

abbrev pub is_at : ℕ → Option ℕ → Bool
is_at v none = false
is_at v (some x) = nat_eq x v

-- The slice steps of `Add`: grow by one, shift the tail, write.
unfoldable pub add_sorted : ℕ → List ℕ → List ℕ
unfolding search
add_sorted v l =
    let idx = search v l in if is_at v (get_elem? l idx) then l else take idx l ++ (v ∷ drop idx l)

unfoldable pub intersect_lists : List ℕ → List ℕ → List ℕ
intersect_lists [] ys = []
intersect_lists (x ∷ xs) [] = []
intersect_lists (x ∷ xs) (y ∷ ys) = elim (ltb x y) [
  | true ↦ intersect_lists xs (y ∷ ys)
  | false ↦ elim (ltb y x) [
    | true ↦ intersect_lists (x ∷ xs) ys
    | false ↦ x ∷ intersect_lists xs ys
  ]
]

unfoldable pub union_lists : List ℕ → List ℕ → List ℕ
union_lists [] ys = ys
union_lists (x ∷ xs) [] = x ∷ xs
union_lists (x ∷ xs) (y ∷ ys) = elim (ltb x y) [
  | true ↦ x ∷ union_lists xs (y ∷ ys)
  | false ↦ elim (ltb y x) [ true ↦ y ∷ union_lists (x ∷ xs) ys | false ↦ x ∷ union_lists xs ys ]
]

unfoldable pub difference_lists : List ℕ → List ℕ → List ℕ
difference_lists [] ys = []
difference_lists (x ∷ xs) [] = x ∷ xs
difference_lists (x ∷ xs) (y ∷ ys) = elim (ltb x y) [
  | true ↦ x ∷ difference_lists xs (y ∷ ys)
  | false ↦ elim (ltb y x) [ true ↦ difference_lists (x ∷ xs) ys | false ↦ difference_lists xs ys ]
]

unfoldable pub mem : ℕ → List ℕ → Bool
mem v [] = false
mem v (x ∷ l) = nat_eq x v || mem v l

-- Every element is above `lo`, and the list is strictly ascending.
abbrev pub AscendingFrom : ℕ → List ℕ → Type 0
AscendingFrom lo [] = Unit
AscendingFrom lo (x ∷ l) = (lo ≤ x) × AscendingFrom (suc x) l

mem-below : (v lo : ℕ) (l : List ℕ) → AscendingFrom lo l → v < lo → mem v l ≡ false
unfolding mem
mem-below v lo [] h lt = refl
mem-below v lo (x ∷ l) h lt = ground (arith, mem-below v (suc x) l h.1)

pub AscendingFrom-le : (lo hi : ℕ) (l : List ℕ) → lo ≤ hi → AscendingFrom hi l → AscendingFrom lo l
AscendingFrom-le lo hi [] le h = tt
AscendingFrom-le lo hi (x ∷ l) le h = (omega arith, h.1)

pub mem-append : (y : ℕ) (a b : List ℕ) → mem y (a ++ b) ≡ (mem y a || mem y b)
unfolding mem
mem-append y [] b = refl
mem-append y (x ∷ a) b = ground (arith, mem-append y a b)

pub mem-add_sorted : (u v : ℕ) (l : List ℕ) → mem u (add_sorted v l) ≡ (nat_eq v u || mem u l)
unfolding mem add_sorted
mem-add_sorted u v [] = refl
mem-add_sorted u v (x ∷ l) = ground (arith, mem-add_sorted u v l)

pub mem-intersect :
    (v a b : ℕ) (xs ys : List ℕ)
    → AscendingFrom a xs
    → AscendingFrom b ys
    → mem v (intersect_lists xs ys) ≡ (mem v xs && mem v ys)
unfolding mem intersect_lists
mem-intersect v a b [] ys hx hy = refl
mem-intersect v a b (x ∷ xs) [] hx hy = ground arith
mem-intersect v a b (x ∷ xs) (y ∷ ys) hx hy = ground (
  arith,
  mem-intersect v (suc x) b xs (y ∷ ys) hx.1 hy,
  mem-intersect v a (suc y) (x ∷ xs) ys hx hy.1,
  mem-intersect v (suc x) (suc y) xs ys hx.1 hy.1,
  mem-below v (suc x) xs hx.1,
  mem-below v (suc y) ys hy.1,
)

pub mem-union :
    (v a b : ℕ) (xs ys : List ℕ)
    → AscendingFrom a xs
    → AscendingFrom b ys
    → mem v (union_lists xs ys) ≡ (mem v xs || mem v ys)
unfolding mem union_lists
mem-union v a b [] ys hx hy = refl
mem-union v a b (x ∷ xs) [] hx hy = ground arith
mem-union v a b (x ∷ xs) (y ∷ ys) hx hy = ground (
  arith,
  mem-union v (suc x) b xs (y ∷ ys) hx.1 hy,
  mem-union v a (suc y) (x ∷ xs) ys hx hy.1,
  mem-union v (suc x) (suc y) xs ys hx.1 hy.1,
)

pub mem-difference :
    (v a b : ℕ) (xs ys : List ℕ)
    → AscendingFrom a xs
    → AscendingFrom b ys
    → mem v (difference_lists xs ys) ≡ (mem v xs && not (mem v ys))
unfolding mem difference_lists
mem-difference v a b [] ys hx hy = refl
mem-difference v a b (x ∷ xs) [] hx hy = ground arith
mem-difference v a b (x ∷ xs) (y ∷ ys) hx hy = ground (
  arith,
  mem-difference v (suc x) b xs (y ∷ ys) hx.1 hy,
  mem-difference v a (suc y) (x ∷ xs) ys hx hy.1,
  mem-difference v (suc x) (suc y) xs ys hx.1 hy.1,
  mem-below v (suc x) xs hx.1,
  mem-below v (suc y) ys hy.1,
)

add_sorted-cons :
    (v x : ℕ) (l : List ℕ)
    → add_sorted v (x ∷ l)
      ≡ (if leb v x then (if nat_eq x v then x ∷ l else v ∷ x ∷ l) else x ∷ add_sorted v l)
unfolding add_sorted
add_sorted-cons v x l = ground arith

-- Insertion keeps a list strictly ascending, so it never stores a value twice.
pub add_sorted-AscendingFrom :
    (v lo : ℕ) (l : List ℕ) → AscendingFrom lo l → lo ≤ v → AscendingFrom lo (add_sorted v l)
add_sorted-AscendingFrom v lo [] h le = unfold add_sorted in (le, tt)
add_sorted-AscendingFrom v lo (x ∷ l) h le = rw (add_sorted-cons v x l) (
    split_if (AscendingFrom lo) (leb v x) (if nat_eq x v then x ∷ l else v ∷ x ∷ l)
      (x ∷ add_sorted v l)
      (λ e.
        split_if (AscendingFrom lo) (nat_eq x v) (x ∷ l) (v ∷ x ∷ l) (λ f. h)
          (λ f. (le, (ground arith, h.1))))
      (λ e. (h.0, add_sorted-AscendingFrom v (suc x) l h.1 (ground arith))))
