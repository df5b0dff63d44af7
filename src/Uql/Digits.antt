-- ===== src/Uql/Digits.antt =====
-- Numbers and strings written as bytes, and read again by the lexer and by strconv.
use native.Mathlib.Nat.{pow-suc}
use ultimate_db.Prelude.{
  ℕ, zero, suc, ◌+◌, ◌-◌, ◌*◌, ◌/◌, ◌%◌, ◌^◌, ◌≤◌, ◌<◌, ◌≡◌, refl, ap, ◌∙◌, Bool, true, false, ◌&&◌,
  some, List, [], ◌∷◌, ◌++◌, arith, if◌then◌else◌, ltb, Bool-cases, split_if, inl, inr, bytes_eq,
}
use ultimate_db.Uql.{
  token, token_at, next_token, passed, left_of, is_letter, is_digit, in_string, token_number,
  token_string,
}
use ultimate_db.Uql.Numbers.{decimal, parse_uint}

-- Decimal digits; twenty are enough for a uint64.
unfoldable pub print_digits : ℕ → ℕ → List ℕ
print_digits zero n = []
print_digits (suc fuel) n =
    let before = print_digits fuel (n / 10) in
    if ltb n 10 then (48 + n) ∷ [] else before ++ ((48 + n % 10) ∷ [])

unfoldable pub all_of : (ℕ → Bool) → List ℕ → Bool
all_of p [] = true
all_of p (c ∷ s) = p c && all_of p s

all_of-append : (p : ℕ → Bool) (a b : List ℕ) → all_of p (a ++ b) ≡ (all_of p a && all_of p b)
unfolding all_of
all_of-append p [] b = refl
all_of-append p (c ∷ a) b = ground (arith, all_of-append p a b)

pub passed-all :
    (p : ℕ → Bool) (a : List ℕ) (c : ℕ) (s : List ℕ)
    → all_of p a ≡ true
    → p c ≡ false
    → (passed p (a ++ (c ∷ s)) ≡ a) × (left_of p (a ++ (c ∷ s)) ≡ c ∷ s)
unfolding all_of passed left_of
passed-all p [] c s h k = (ground (arith, k), ground (arith, k))
passed-all p (x ∷ a) c s h k =
    (ground (arith, h, passed-all p a c s _ k), ground (arith, h, passed-all p a c s _ k))

pub print_digits-digits : (fuel n : ℕ) → all_of is_digit (print_digits fuel n) ≡ true
unfolding print_digits all_of is_digit
print_digits-digits zero n = refl
print_digits-digits (suc fuel) n = ground (
  arith,
  print_digits-digits fuel (n / 10),
  all_of-append is_digit (print_digits fuel (n / 10)) ((48 + n % 10) ∷ []),
)

decimal-append :
    (acc : ℕ) (a : List ℕ) (d v : ℕ)
    → d < 10
    → decimal acc a ≡ some v
    → decimal acc (a ++ ((48 + d) ∷ [])) ≡ some (v * 10 + d)
unfolding decimal is_digit
decimal-append acc [] d v h e = ground (arith, h, e)
decimal-append acc (c ∷ a) d v h e =
    ground (arith, h, e, decimal-append (acc * 10 + (c - 48)) a d v h)

print_digits-small : (fuel n : ℕ) → n < 10 → print_digits (suc fuel) n ≡ (48 + n) ∷ []
unfolding print_digits
print_digits-small fuel n h = ground (arith, h)

print_digits-large :
    (fuel n : ℕ)
    → 10 ≤ n
    → print_digits (suc fuel) n ≡ print_digits fuel (n / 10) ++ ((48 + n % 10) ∷ [])
unfolding print_digits
print_digits-large fuel n h = ground (arith, h)

decimal-digit : (d : ℕ) → d < 10 → decimal 0 ((48 + d) ∷ []) ≡ some d
unfolding decimal is_digit
decimal-digit d h = ground (arith, h)

decimal-print_digits :
    (fuel n : ℕ) → n < 10 ^ suc fuel → decimal 0 (print_digits (suc fuel) n) ≡ some n
decimal-print_digits zero n h =
    ap (decimal 0) (print_digits-small zero n (omega (arith, h)))
    ∙ decimal-digit n (omega (arith, h))
decimal-print_digits (suc fuel) n h = elim (Bool-cases (ltb n 10)) [
  | inl e ↦
      ap (decimal 0) (print_digits-small (suc fuel) n (ground (arith, e)))
      ∙ decimal-digit n (ground (arith, e))
  | inr e ↦
      ap (decimal 0) (print_digits-large (suc fuel) n (ground (arith, e)))
      ∙ decimal-append 0 (print_digits (suc fuel) (n / 10)) (n % 10) (n / 10) (omega arith)
          (decimal-print_digits fuel (n / 10) (omega (arith, h, pow-suc 10 (suc fuel))))
      ∙ ap some (omega arith)
]

-- What FormatUint writes of a uint64.
abbrev pub print_uint : ℕ → List ℕ
print_uint = print_digits 20

abbrev pub NonEmpty : List ℕ → Type 0
NonEmpty s = bytes_eq s [] ≡ false

append-NonEmpty : (a : List ℕ) (c : ℕ) → NonEmpty (a ++ (c ∷ []))
unfolding bytes_eq
append-NonEmpty [] c = refl
append-NonEmpty (x ∷ a) c = refl

pub print_uint-NonEmpty : (n : ℕ) → NonEmpty (print_uint n)
unfolding print_digits
print_uint-NonEmpty n =
    split_if NonEmpty (ltb n 10) ((48 + n) ∷ []) (print_digits 19 (n / 10) ++ ((48 + n % 10) ∷ []))
      (λ e. append-NonEmpty [] (48 + n))
      (λ e. append-NonEmpty (print_digits 19 (n / 10)) (48 + n % 10))

parse_uint-decimal :
    (s : List ℕ) (v : ℕ) → NonEmpty s → decimal 0 s ≡ some v → v < 2 ^ 64 → parse_uint s ≡ some v
unfolding parse_uint bytes_eq
parse_uint-decimal [] v n e h = absurd (ground (arith, n))
parse_uint-decimal (c ∷ s) v n e h = ground (arith, e, h)

pub parse_uint-print_uint : (n : ℕ) → n < 2 ^ 64 → parse_uint (print_uint n) ≡ some n
parse_uint-print_uint n h =
    parse_uint-decimal (print_uint n) n (print_uint-NonEmpty n)
      (decimal-print_digits 19 n (omega (arith, h))) h

pub next_token-number :
    (w : List ℕ) (c : ℕ) (s : List ℕ)
    → NonEmpty w
    → all_of is_digit w ≡ true
    → is_digit c ≡ false
    → next_token (w ++ (c ∷ s)) ≡ (token token_number w, c ∷ s)
unfolding next_token token_at bytes_eq is_digit is_letter all_of left_of
next_token-number [] c s n h k = absurd (ground (arith, n))
next_token-number (d ∷ w) c s n h k = ground (arith, h, k, passed-all is_digit (d ∷ w) c s h k)

pub next_token-string :
    (v s : List ℕ)
    → all_of in_string v ≡ true
    → next_token (b'\'' ∷ (v ++ (b'\'' ∷ s))) ≡ (token token_string v, s)
unfolding next_token token_at left_of in_string
next_token-string v s h = ground (arith, passed-all in_string v b'\'' s h refl)
