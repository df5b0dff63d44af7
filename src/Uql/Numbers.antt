-- ===== src/Uql/Numbers.antt =====
-- strconv, as query.go uses it: ParseUint and Atoi.
use ultimate_db.Prelude.{
  ℕ, zero, suc, ◌+◌, ◌-◌, ◌*◌, ◌^◌, Bool, true, false, Option, none, some, List, [], ◌∷◌, ltb,
  nat_eq, if◌then◌else◌, ℤ, pos, negsuc,
}
use ultimate_db.Uql.{is_digit}

-- Decimal digits on top of `acc`; none if there is another byte.
unfoldable pub decimal : ℕ → List ℕ → Option ℕ
unfolding is_digit
decimal acc [] = some acc
decimal acc (c ∷ s) =
    let more = decimal (acc * 10 + (c - 48)) s in if is_digit c then more else none

abbrev pub below : ℕ → Option ℕ → Option ℕ
below n none = none
below n (some v) = if ltb v n then some v else none

-- strconv.ParseUint(s, 10, 64)
unfoldable pub parse_uint : List ℕ → Option ℕ
unfolding decimal
parse_uint [] = none
parse_uint (c ∷ s) = below (2 ^ 64) (decimal 0 (c ∷ s))

abbrev negated : ℕ → ℤ
negated zero = pos 0
negated (suc n) = negsuc n

abbrev signed : Bool → Option ℕ → Option ℤ
signed minus none = none
signed minus (some v) = some (if minus then negated v else pos v)

abbrev digits : List ℕ → Option ℕ
digits [] = none
digits (c ∷ s) = decimal 0 (c ∷ s)

-- strconv.Atoi, on 64 bits
unfoldable pub atoi : List ℕ → Option ℤ
unfolding decimal
atoi [] = none
atoi (c ∷ s) =
    if nat_eq c b'-'
    then signed true (below (2 ^ 63 + 1) (digits s))
    else if nat_eq c b'+'
    then signed false (below (2 ^ 63) (digits s))
    else signed false (below (2 ^ 63) (digits (c ∷ s)))
