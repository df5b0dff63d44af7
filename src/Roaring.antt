-- ===== src/Roaring.antt =====
-- roaring.go: sets of uint64 as chunks of sorted low halves under the high 48 bits.
pub mod Chunk
pub mod Sets
pub mod Valid
pub mod Stored
pub mod Listed
use ultimate_db.Prelude.{
  ℕ, zero, suc, ◌+◌, ◌*◌, ◌/◌, ◌%◌, Bool, true, false, Option, none, some, List, [], ◌∷◌, ◌++◌,
  length, ltb, nat_eq, if◌then◌else◌, Map, lookup, insert, nat_key, each_entry,
}
use Chunk.{add_sorted, intersect_lists, union_lists, difference_lists}

pub record RoaringBitmap : Type 0 where
  pub chunks : Map ℕ (List ℕ)

abbrev pub new_roaring_bitmap : RoaringBitmap
new_roaring_bitmap = record { chunks = [] }

-- r.Chunks[k], where a missing key reads as the empty slice
abbrev pub list_of : Option (List ℕ) → List ℕ
list_of none = []
list_of (some l) = l

unfoldable pub add : ℕ → RoaringBitmap → RoaringBitmap
add val r =
    let k = val / 65536 in
    record { chunks = insert k (add_sorted (val % 65536) (list_of (lookup k r.chunks))) r.chunks }

-- if len(l) > 0 { res.Chunks[k] = l }
unfoldable pub put_nonempty : ℕ → List ℕ → Map ℕ (List ℕ) → Map ℕ (List ℕ)
put_nonempty k [] res = res
put_nonempty k (x ∷ l) res = insert k (x ∷ l) res

abbrev pub intersect_step : Map ℕ (List ℕ) → ℕ → List ℕ → Map ℕ (List ℕ) → Map ℕ (List ℕ)
intersect_step r2 k l1 res = elim (lookup k r2) [
  | none ↦ res
  | some l2 ↦ put_nonempty k (intersect_lists l1 l2) res
]

unfoldable pub roaring_intersect : RoaringBitmap → RoaringBitmap → RoaringBitmap
roaring_intersect r1 r2 = record { chunks = each_entry (intersect_step r2.chunks) r1.chunks [] }

abbrev pub copy_step : ℕ → List ℕ → Map ℕ (List ℕ) → Map ℕ (List ℕ)
copy_step k l res = insert k l res

abbrev pub union_step : ℕ → List ℕ → Map ℕ (List ℕ) → Map ℕ (List ℕ)
union_step k l2 res = elim (lookup k res) [
  | none ↦ insert k l2 res
  | some l1 ↦ insert k (union_lists l1 l2) res
]

unfoldable pub roaring_union : RoaringBitmap → RoaringBitmap → RoaringBitmap
roaring_union r1 r2 = record {
  chunks = each_entry union_step r2.chunks (each_entry copy_step r1.chunks []);
}

abbrev pub difference_step : Map ℕ (List ℕ) → ℕ → List ℕ → Map ℕ (List ℕ) → Map ℕ (List ℕ)
difference_step r2 k l1 res = elim (lookup k r2) [
  | none ↦ insert k l1 res
  | some l2 ↦ put_nonempty k (difference_lists l1 l2) res
]

unfoldable pub roaring_difference : RoaringBitmap → RoaringBitmap → RoaringBitmap
roaring_difference r1 r2 = record { chunks = each_entry (difference_step r2.chunks) r1.chunks [] }

unfoldable pub len : RoaringBitmap → ℕ
len r = each_entry (λ k l count. count + length l) r.chunks 0
