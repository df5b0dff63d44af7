-- ===== src/Tests/Bitmaps.antt =====
-- Bitmaps: two small sets whose values fall in two chunks.
use ultimate_db.Index.Segment.Sorting.{sort_ids}
use ultimate_db.Roaring.Stored.{
  serialize, put_chunks, put_words, deserialize, read_chunks, read_words, after_words, read_word,
  deserialize-serialize,
}
use ultimate_db.Roaring.Listed.{IsHalved, to_array, to_array-member}
use ultimate_db.Bytes.{le_encode, le_decode}
use ultimate_db.Prelude.{
  some, none, Option, List, if◌then◌else◌, [], ◌∷◌, arith, All, split_if, ◌<◌, ℕ, ◌≡◌, refl, true,
  not, ◌&&◌, ◌||◌, nat_key, nat_eq, lookup, insert,
}
use ultimate_db.Roaring.{
  RoaringBitmap, list_of, new_roaring_bitmap, add, roaring_intersect, roaring_union,
  roaring_difference,
}
use ultimate_db.Roaring.Chunk.{add_sorted, mem, AscendingFrom}
use ultimate_db.Roaring.Sets.{member, IsValid, new-IsValid, add_set, set_operations}

-- 3 and 65540 are in two chunks.
abbrev small : RoaringBitmap
small = add 65540 (add 3 new_roaring_bitmap)

abbrev other : RoaringBitmap
other = add 9 (add 3 new_roaring_bitmap)

small-IsValid : IsValid small
small-IsValid =
    (add_set 65540 (add 3 new_roaring_bitmap) (add_set 3 new_roaring_bitmap new-IsValid).0).0

other-IsValid : IsValid other
other-IsValid =
    (add_set 9 (add 3 new_roaring_bitmap) (add_set 3 new_roaring_bitmap new-IsValid).0).0

member_test : member 65540 small ≡ true
unfolding member add add_sorted lookup insert
member_test = refl

add_set_test :
    IsValid (add 9 small) × ((y : ℕ) → member y (add 9 small) ≡ (nat_eq 9 y || member y small))
add_set_test = add_set 9 small small-IsValid

set_operations_example :
    (member 3 (roaring_intersect small other) ≡ (member 3 small && member 3 other))
    × (member 3 (roaring_union small other) ≡ (member 3 small || member 3 other))
    × (member 3 (roaring_difference small other) ≡ (member 3 small && not (member 3 other)))
set_operations_example = set_operations small other 3 small-IsValid other-IsValid

-- The bytes that `small` is stored as, and its values.
stored_test :
    serialize small
    ≡ 2 ∷ 0 ∷ 0 ∷ 0 ∷ 0 ∷ 0 ∷ 0 ∷ 0 ∷ 0 ∷ 0 ∷ 0 ∷ 0 ∷ 1 ∷ 0 ∷ 0 ∷ 0 ∷ 3 ∷ 0 ∷ 1 ∷ 0 ∷ 0 ∷ 0 ∷ 0 ∷ 0
      ∷ 0 ∷ 0 ∷ 1 ∷ 0 ∷ 0 ∷ 0 ∷ 4 ∷ 0 ∷ []
unfolding serialize put_chunks put_words le_encode add add_sorted lookup insert
stored_test = refl

-- A bitmap cut short is read as if zeros followed.
truncated_test :
    deserialize (1 ∷ 0 ∷ 0 ∷ 0 ∷ []) new_roaring_bitmap ≡ some (record { chunks = (0, []) ∷ [] })
unfolding deserialize read_chunks read_words after_words read_word le_decode insert
truncated_test = refl

deserialize-serialize_example : deserialize (serialize small) other ≡ some small
unfolding add add_sorted lookup insert
deserialize-serialize_example =
    deserialize-serialize small other (refl, (refl, tt))
      (
        (omega arith, omega arith, (omega arith, tt)),
        ((omega arith, omega arith, (omega arith, tt)), tt),
      )
      (omega arith)

abbrev Halves : Option (List ℕ) → Type 0
Halves o = All (λ v. v < 65536) (list_of o)

small-IsHalved : IsHalved small
unfolding add add_sorted lookup insert sort_ids
small-IsHalved = record {
  keys = (omega arith, (omega arith, tt));
  halves = λ k.
      split_if Halves (nat_eq 0 k) (some (3 ∷ [])) (if nat_eq 1 k then some (4 ∷ []) else none)
        (λ e. (omega arith, tt))
        (λ e. split_if Halves (nat_eq 1 k) (some (4 ∷ [])) none (λ f. (omega arith, tt)) (λ f. tt));
}

to_array-member_example :
    AscendingFrom 0 (to_array small) × ((y : ℕ) → mem y (to_array small) ≡ member y small)
to_array-member_example = to_array-member small small-IsValid small-IsHalved
