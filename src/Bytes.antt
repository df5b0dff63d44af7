-- ===== src/Bytes.antt =====
-- Go's encoding/binary.LittleEndian on byte strings: `PutUint16/32/64` and `Uint16/32/64`.
pub mod Order
pub mod Utf8
use native.Mathlib.Nat.{pow-suc}
use ultimate_db.Prelude.{
  ℕ, zero, suc, ◌+◌, ◌*◌, ◌/◌, ◌%◌, ◌^◌, ◌<◌, ◌≡◌, refl, List, [], ◌∷◌, ◌++◌, arith, length, take,
  drop, ap, Bool, true, false, ◌&&◌, ◌||◌, nat_eq, ltb,
}

-- The `w` low bytes of `v`, the least first.
unfoldable pub le_encode : ℕ → ℕ → List ℕ
le_encode zero v = []
le_encode (suc w) v = v % 256 ∷ le_encode w (v / 256)

unfoldable pub le_decode : List ℕ → ℕ
le_decode [] = 0
le_decode (b ∷ bs) = b + 256 * le_decode bs

pub length-le_encode : (w v : ℕ) → length (le_encode w v) ≡ w
unfolding le_encode
length-le_encode zero v = refl
length-le_encode (suc w) v = omega (arith, length-le_encode w (v / 256))

-- A fixed-width number at the front of a byte string, and what follows it.
pub take-le_encode : (w v : ℕ) (rest : List ℕ) → take w (le_encode w v ++ rest) ≡ le_encode w v
unfolding le_encode
take-le_encode zero v rest = refl
take-le_encode (suc w) v rest = ap (λ l. v % 256 ∷ l) (take-le_encode w (v / 256) rest)

pub drop-le_encode : (w v : ℕ) (rest : List ℕ) → drop w (le_encode w v ++ rest) ≡ rest
unfolding le_encode
drop-le_encode zero v rest = refl
drop-le_encode (suc w) v rest = drop-le_encode w (v / 256) rest

-- Encoding a number that fits and decoding it gives the number.
pub decode-encode : (w v : ℕ) → v < 256 ^ w → le_decode (le_encode w v) ≡ v
unfolding le_encode le_decode
decode-encode zero v h = omega arith
decode-encode (suc w) v h = omega (arith, decode-encode w (v / 256) (omega (arith, pow-suc 256 w)))

-- bytes.HasPrefix(s, prefix)
unfoldable pub has_prefix : List ℕ → List ℕ → Bool
has_prefix s [] = true
has_prefix [] (p ∷ ps) = false
has_prefix (b ∷ bs) (p ∷ ps) = nat_eq b p && has_prefix bs ps

-- bytes.Compare(a, b) < 0: the lexicographic order.
unfoldable pub bytes_lt : List ℕ → List ℕ → Bool
bytes_lt [] [] = false
bytes_lt [] (b ∷ bs) = true
bytes_lt (a ∷ as') [] = false
bytes_lt (a ∷ as') (b ∷ bs) = ltb a b || (nat_eq a b && bytes_lt as' bs)
