-- ===== src/Index/Segment/Sorting.antt =====
-- Go's `sort.Strings` and `sort.Slice` on ids, as the insertion that gives the same list.
use ultimate_db.Prelude.{
  ℕ, ◌≤◌, ◌<◌, ◌≡◌, refl, Bool, ◌||◌, List, [], ◌∷◌, arith, length, suc, leb, if◌then◌else◌,
  bytes_eq, All, split_if,
}
use ultimate_db.Bytes.{bytes_lt}
use ultimate_db.Index.{has_term}
use ultimate_db.Roaring.Chunk.{mem}

module _ {ℓ} {A : Type ℓ} where
  abbrev pub insert_sorted : (A → A → Bool) → A → List A → List A
  insert_sorted less x [] = x ∷ []
  insert_sorted less x (y ∷ l) =
      let rest = insert_sorted less x l in if less y x then y ∷ rest else x ∷ y ∷ l

  abbrev pub sort : (A → A → Bool) → List A → List A
  sort less [] = []
  sort less (x ∷ l) = insert_sorted less x (sort less l)

unfoldable pub sort_strings : List (List ℕ) → List (List ℕ)
sort_strings = sort bytes_lt

unfoldable pub sort_ids : List ℕ → List ℕ
sort_ids = sort (λ a b. leb a b)

-- Weakly ascending, and from `lo` on.
abbrev pub AscendsFrom : ℕ → List ℕ → Type 0
AscendsFrom lo [] = Unit
AscendsFrom lo (x ∷ l) = (lo ≤ x) × AscendsFrom x l

has_term-insert :
    (t u : List ℕ) (l : List (List ℕ))
    → has_term t (insert_sorted bytes_lt u l) ≡ (bytes_eq u t || has_term t l)
unfolding has_term
has_term-insert t u [] = refl
has_term-insert t u (v ∷ l) = ground (arith, has_term-insert t u l)

pub has_term-sort_strings :
    (t : List ℕ) (l : List (List ℕ)) → has_term t (sort_strings l) ≡ has_term t l
unfolding has_term sort_strings
has_term-sort_strings t [] = refl
has_term-sort_strings t (u ∷ l) =
    ground (arith, has_term-insert t u (sort_strings l), has_term-sort_strings t l)

mem-insert : (y x : ℕ) (l : List ℕ) → mem y (insert_sorted (λ a b. leb a b) x l) ≡ mem y (x ∷ l)
unfolding mem
mem-insert y x [] = refl
mem-insert y x (z ∷ l) = ground (arith, mem-insert y x l)

pub mem-sort_ids : (y : ℕ) (l : List ℕ) → mem y (sort_ids l) ≡ mem y l
unfolding mem sort_ids
mem-sort_ids y [] = refl
mem-sort_ids y (x ∷ l) = ground (arith, mem-insert y x (sort_ids l), mem-sort_ids y l)

pub length-sort_ids : (l : List ℕ) → length (sort_ids l) ≡ length l
unfolding sort_ids
length-sort_ids [] = refl
length-sort_ids (x ∷ l) = ground (arith, length-insert x (sort_ids l), length-sort_ids l)
  where
    length-insert :
        (x : ℕ) (l : List ℕ) → length (insert_sorted (λ a b. leb a b) x l) ≡ suc (length l)
    length-insert x [] = refl
    length-insert x (z ∷ l) = ground (arith, length-insert x l)

insert-AscendsFrom :
    (lo x : ℕ) (l : List ℕ)
    → lo ≤ x
    → AscendsFrom lo l
    → AscendsFrom lo (insert_sorted (λ a b. leb a b) x l)
insert-AscendsFrom lo x [] h a = (h, tt)
insert-AscendsFrom lo x (y ∷ l) h a =
    split_if (AscendsFrom lo) (leb y x) _ _
      (λ e. (a.0, insert-AscendsFrom y x l (ground (arith, e)) a.1))
      (λ e. (h, (ground (arith, e), a.1)))

pub sort_ids-AscendsFrom : (l : List ℕ) → AscendsFrom 0 (sort_ids l)
unfolding sort_ids
sort_ids-AscendsFrom [] = tt
sort_ids-AscendsFrom (x ∷ l) =
    insert-AscendsFrom 0 x (sort_ids l) (omega arith) (sort_ids-AscendsFrom l)

module _ {ℓ κ} {A : Type ℓ} (P : A → Type κ) (less : A → A → Bool) where
  insert_sorted-All : (x : A) (l : List A) → P x → All P l → All P (insert_sorted less x l)
  insert_sorted-All x [] h a = (h, tt)
  insert_sorted-All x (y ∷ l) h a =
      split_if (All P) (less y x) _ _ (λ e. (a.0, insert_sorted-All x l h a.1)) (λ e. (h, a))

  -- Sorting keeps what holds of every element.
  sort-All : (l : List A) → All P l → All P (sort less l)
  sort-All [] a = tt
  sort-All (x ∷ l) a = insert_sorted-All x (sort less l) a.0 (sort-All l a.1)

pub sort_ids-All : (n : ℕ) (l : List ℕ) → All (λ y. y < n) l → All (λ y. y < n) (sort_ids l)
unfolding sort_ids
sort_ids-All n l a = sort-All (λ y. y < n) (λ a b. leb a b) l a

pub sort_strings-All {κ} :
    (P : List ℕ → Type κ) (l : List (List ℕ)) → All P l → All P (sort_strings l)
unfolding sort_strings
sort_strings-All P l a = sort-All P bytes_lt l a
