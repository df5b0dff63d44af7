-- ===== src/Uql.antt =====
-- query.go: the lexer of UQL statements. A statement is a list of bytes; the lexer's state is the
-- bytes from `position` on, and `ch` is their first, or 0 at the end.
pub mod Numbers
pub mod Parser
pub mod Ends
pub mod Filter
pub mod Statements
pub mod Digits
pub mod Inserted
use ultimate_db.Prelude.{
  ℕ, zero, suc, ◌+◌, ◌-◌, ◌*◌, ◌/◌, ◌%◌, Bool, true, false, not, ◌&&◌, ◌||◌, Option, none, some,
  List, [], ◌∷◌, leb, nat_eq, if◌then◌else◌, Map, lookup, bytes_key, bytes_eq,
}

pub data TokenType : Type 0 where
  token_illegal token_eof token_ident token_string token_number token_select : TokenType
  token_insert token_into token_values token_update token_set token_delete : TokenType
  token_from token_where token_join token_on token_and token_or : TokenType
  token_not token_limit token_hset token_compressed token_recover token_checkpoint : TokenType
  token_show token_metrics token_lparen token_rparen token_asterisk token_comma : TokenType
  token_equal token_colon : TokenType

-- The constant's number.
unfoldable pub iota : TokenType → ℕ
iota token_illegal = 0
iota token_eof = 1
iota token_ident = 2
iota token_string = 3
iota token_number = 4
iota token_select = 5
iota token_insert = 6
iota token_into = 7
iota token_values = 8
iota token_update = 9
iota token_set = 10
iota token_delete = 11
iota token_from = 12
iota token_where = 13
iota token_join = 14
iota token_on = 15
iota token_and = 16
iota token_or = 17
iota token_not = 18
iota token_limit = 19
iota token_hset = 20
iota token_compressed = 21
iota token_recover = 22
iota token_checkpoint = 23
iota token_show = 24
iota token_metrics = 25
iota token_lparen = 26
iota token_rparen = 27
iota token_asterisk = 28
iota token_comma = 29
iota token_equal = 30
iota token_colon = 31

infix 50 ◌is◌
abbrev pub ◌is◌ : TokenType → TokenType → Bool
a is b = nat_eq (iota a) (iota b)

pub record Token : Type 0 where
  pub kind : TokenType
  pub literal : List ℕ

unfoldable pub keywords : Map (List ℕ) TokenType
keywords =
    (b'S' ∷ b'E' ∷ b'L' ∷ b'E' ∷ b'C' ∷ b'T' ∷ [], token_select)
    ∷ (b'I' ∷ b'N' ∷ b'S' ∷ b'E' ∷ b'R' ∷ b'T' ∷ [], token_insert)
    ∷ (b'I' ∷ b'N' ∷ b'T' ∷ b'O' ∷ [], token_into)
    ∷ (b'V' ∷ b'A' ∷ b'L' ∷ b'U' ∷ b'E' ∷ b'S' ∷ [], token_values)
    ∷ (b'U' ∷ b'P' ∷ b'D' ∷ b'A' ∷ b'T' ∷ b'E' ∷ [], token_update)
    ∷ (b'S' ∷ b'E' ∷ b'T' ∷ [], token_set)
    ∷ (b'D' ∷ b'E' ∷ b'L' ∷ b'E' ∷ b'T' ∷ b'E' ∷ [], token_delete)
    ∷ (b'F' ∷ b'R' ∷ b'O' ∷ b'M' ∷ [], token_from)
    ∷ (b'W' ∷ b'H' ∷ b'E' ∷ b'R' ∷ b'E' ∷ [], token_where)
    ∷ (b'J' ∷ b'O' ∷ b'I' ∷ b'N' ∷ [], token_join)
    ∷ (b'O' ∷ b'N' ∷ [], token_on)
    ∷ (b'A' ∷ b'N' ∷ b'D' ∷ [], token_and)
    ∷ (b'O' ∷ b'R' ∷ [], token_or)
    ∷ (b'N' ∷ b'O' ∷ b'T' ∷ [], token_not)
    ∷ (b'L' ∷ b'I' ∷ b'M' ∷ b'I' ∷ b'T' ∷ [], token_limit)
    ∷ (b'H' ∷ b'S' ∷ b'E' ∷ b'T' ∷ [], token_hset)
    ∷ (b'C' ∷ b'O' ∷ b'M' ∷ b'P' ∷ b'R' ∷ b'E' ∷ b'S' ∷ b'S' ∷ b'E' ∷ b'D' ∷ [], token_compressed)
    ∷ (b'R' ∷ b'E' ∷ b'C' ∷ b'O' ∷ b'V' ∷ b'E' ∷ b'R' ∷ [], token_recover)
    ∷ (b'C' ∷ b'H' ∷ b'E' ∷ b'C' ∷ b'K' ∷ b'P' ∷ b'O' ∷ b'I' ∷ b'N' ∷ b'T' ∷ [], token_checkpoint)
    ∷ (b'S' ∷ b'H' ∷ b'O' ∷ b'W' ∷ [], token_show)
    ∷ (b'M' ∷ b'E' ∷ b'T' ∷ b'R' ∷ b'I' ∷ b'C' ∷ b'S' ∷ [], token_metrics)
    ∷ []

-- strings.ToUpper on the bytes of an identifier, where only ASCII letters matter to the keywords
abbrev pub to_upper : List ℕ → List ℕ
to_upper [] = []
to_upper (c ∷ word) = (if leb b'a' c && leb c b'z' then c - 32 else c) ∷ to_upper word

abbrev pub or_ident : Option TokenType → TokenType
or_ident none = token_ident
or_ident (some t) = t

unfoldable pub lookup_ident : List ℕ → TokenType
unfolding keywords lookup
lookup_ident word = or_ident (lookup (to_upper word) keywords)

-- isLetter: unicode.IsLetter on a byte, and `_`
unfoldable pub is_letter : ℕ → Bool
is_letter c =
    (leb 65 c && leb c 90)
    || (leb 97 c && leb c 122)
    || nat_eq c 170
    || nat_eq c 181
    || nat_eq c 186
    || (leb 192 c && leb c 214)
    || (leb 216 c && leb c 246)
    || (leb 248 c && leb c 255)
    || nat_eq c b'_'

unfoldable pub is_digit : ℕ → Bool
is_digit c = leb b'0' c && leb c b'9'

unfoldable pub in_identifier : ℕ → Bool
in_identifier c = is_letter c || is_digit c || nat_eq c b'.' || nat_eq c b'_'

unfoldable pub in_string : ℕ → Bool
in_string c = not (nat_eq c b'\'') && not (nat_eq c 0)

-- The bytes that a reading loop passes, and what it leaves.
unfoldable pub passed : (ℕ → Bool) → List ℕ → List ℕ
passed p [] = []
passed p (c ∷ s) = let more = passed p s in if p c then c ∷ more else []

unfoldable pub left_of : (ℕ → Bool) → List ℕ → List ℕ
left_of p [] = []
left_of p (c ∷ s) = let more = left_of p s in if p c then more else c ∷ s

abbrev pub is_whitespace : ℕ → Bool
is_whitespace c = nat_eq c b' ' || nat_eq c b'\t' || nat_eq c b'\n' || nat_eq c b'\r'

-- readChar
abbrev pub read_char : List ℕ → List ℕ
read_char [] = []
read_char (c ∷ s) = s

-- string(ch): the code point as UTF-8
abbrev pub string_of : ℕ → List ℕ
string_of c = if leb c 127 then c ∷ [] else (192 + c / 64) ∷ (128 + c % 64) ∷ []

abbrev pub token : TokenType → List ℕ → Token
token k l = record { kind = k; literal = l }

-- The cases of `NextToken` after the white space.
unfoldable pub token_at : List ℕ → Token × List ℕ
unfolding lookup_ident in_identifier is_letter is_digit in_string passed left_of
token_at [] = (token token_eof [], [])
token_at (c ∷ s) =
    if nat_eq c b'('
    then (token token_lparen (b'(' ∷ []), s)
    else if nat_eq c b')'
    then (token token_rparen (b')' ∷ []), s)
    else if nat_eq c b'*'
    then (token token_asterisk (b'*' ∷ []), s)
    else if nat_eq c b','
    then (token token_comma (b',' ∷ []), s)
    else if nat_eq c b'='
    then (token token_equal (b'=' ∷ []), s)
    else if nat_eq c b':'
    then (token token_colon (b':' ∷ []), s)
    else if nat_eq c b'\''
    then (token token_string (passed in_string s), read_char (left_of in_string s))
    else if nat_eq c 0
    then (token token_eof [], s)
    else if is_letter c
    then (
      token (lookup_ident (passed in_identifier (c ∷ s))) (passed in_identifier (c ∷ s)),
      left_of in_identifier (c ∷ s),
    )
    else if is_digit c
    then (token token_number (passed is_digit (c ∷ s)), left_of is_digit (c ∷ s))
    else (token token_illegal (string_of c), s)

unfoldable pub next_token : List ℕ → Token × List ℕ
unfolding token_at left_of
next_token s = token_at (left_of is_whitespace s)
