-- ===== src/Index/Varint.antt =====
-- Go's encoding/binary: `PutUvarint` and `ReadUvarint`, as index.go uses them.
use native.Mathlib.Nat.{pow-suc}
use ultimate_db.Prelude.{
  ℕ, zero, suc, ◌+◌, ◌*◌, ◌/◌, ◌%◌, ◌^◌, ◌<◌, ◌≡◌, ◌&&◌, Option, none, some, List, [], ◌∷◌, ◌++◌,
  arith, ltb, nat_eq, if◌then◌else◌,
}

-- Groups of seven bits, the least first; all but the last have the high bit. A `uint64` has at most
-- ten groups.
unfoldable pub put_groups : ℕ → ℕ → List ℕ
put_groups zero x = []
put_groups (suc n) x =
    let rest = put_groups n (x / 128) in if ltb x 128 then x ∷ [] else (x % 128 + 128) ∷ rest

abbrev pub max_varint_len64 : ℕ
max_varint_len64 = 10

unfoldable pub put_uvarint : ℕ → List ℕ
unfolding put_groups
put_uvarint = put_groups max_varint_len64

abbrev group_above : ℕ → Option (ℕ × List ℕ) → Option (ℕ × List ℕ)
group_above b none = none
group_above b (some (x, rest)) = some (b + 128 * x, rest)

-- The value and the bytes that follow; none for an end of input inside the number, for an eleventh
-- group and for a tenth one above 1. The argument counts the groups still allowed.
unfoldable pub read_groups : ℕ → List ℕ → Option (ℕ × List ℕ)
read_groups zero bytes = none
read_groups (suc n) [] = none
read_groups (suc n) (b ∷ bytes) =
    let more = read_groups n bytes in
    if ltb b 128
    then (if nat_eq n 0 && ltb 1 b then none else some (b, bytes))
    else group_above (b % 128) more

unfoldable pub read_uvarint : List ℕ → Option (ℕ × List ℕ)
unfolding read_groups
read_uvarint = read_groups max_varint_len64

read_groups-put_groups :
    (n x : ℕ) (rest : List ℕ)
    → x < 2 * 128 ^ n
    → read_groups (suc n) (put_groups (suc n) x ++ rest) ≡ some (x, rest)
unfolding read_groups put_groups
read_groups-put_groups zero x rest h = ground (arith, h)
read_groups-put_groups (suc n) x rest h =
    ground (arith, pow-suc 128 n, read_groups-put_groups n (x / 128) rest)

-- What `PutUvarint` writes of a uint64 is read back, whatever follows it.
pub read_uvarint-put_uvarint :
    (x : ℕ) (rest : List ℕ) → x < 2 ^ 64 → read_uvarint (put_uvarint x ++ rest) ≡ some (x, rest)
unfolding read_uvarint put_uvarint
read_uvarint-put_uvarint x rest h = read_groups-put_groups 9 x rest h
