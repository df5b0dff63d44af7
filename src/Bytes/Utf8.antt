-- ===== src/Bytes/Utf8.antt =====
-- Go's reading of a string as code points, with U+FFFD for a byte that starts no valid one.
use ultimate_db.Prelude.{
  ℕ, zero, suc, ◌+◌, ◌-◌, ◌*◌, Bool, ◌&&◌, List, [], ◌∷◌, leb, nat_eq, if◌then◌else◌,
}

abbrev within : ℕ → ℕ → ℕ → Bool
within lo hi c = leb lo c && leb c hi

abbrev rune_error : ℕ × ℕ
rune_error = (65533, 1)

abbrev low : ℕ → ℕ
low b = b - 128

-- The least and the greatest second byte after a first byte of three or four bytes.
abbrev least_second : ℕ → ℕ
least_second c = if nat_eq c 224 then 160 else if nat_eq c 240 then 144 else 128

abbrev greatest_second : ℕ → ℕ
greatest_second c = if nat_eq c 237 then 159 else if nat_eq c 244 then 143 else 191

abbrev second_ok : ℕ → ℕ → Bool
second_ok c b = within (least_second c) (greatest_second c) b

abbrev decode_two : ℕ → List ℕ → ℕ × ℕ
decode_two c [] = rune_error
decode_two c (b ∷ s) = if within 128 191 b then ((c - 192) * 64 + low b, 2) else rune_error

abbrev decode_three : ℕ → List ℕ → ℕ × ℕ
decode_three c (b ∷ d ∷ s) =
    if second_ok c b && within 128 191 d
    then ((c - 224) * 4096 + low b * 64 + low d, 3)
    else rune_error
decode_three c _ = rune_error

abbrev decode_four : ℕ → List ℕ → ℕ × ℕ
decode_four c (b ∷ d ∷ e ∷ s) =
    if second_ok c b && within 128 191 d && within 128 191 e
    then ((c - 240) * 262144 + low b * 4096 + low d * 64 + low e, 4)
    else rune_error
decode_four c _ = rune_error

-- The code point at the front, and its bytes.
unfoldable pub decode_rune : ℕ → List ℕ → ℕ × ℕ
decode_rune c s =
    if leb c 127
    then (c, 1)
    else if within 194 223 c
    then decode_two c s
    else if within 224 239 c
    then decode_three c s
    else if within 240 244 c
    then decode_four c s
    else rune_error

-- The bytes of the last code point that are still to pass are counted.
unfoldable pub runes_from : ℕ → List ℕ → List ℕ
runes_from skip [] = []
runes_from (suc skip) (c ∷ s) = runes_from skip s
runes_from zero (c ∷ s) = let (rune, width) = decode_rune c s in rune ∷ runes_from (width - 1) s

unfoldable pub runes : List ℕ → List ℕ
unfolding runes_from decode_rune
runes = runes_from 0
