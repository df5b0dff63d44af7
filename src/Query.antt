-- ===== src/Query.antt =====
-- ast.go: the queries, their parser by recursive descent, and their execution on a segment; and
-- `Search` of index.go, which composes the two.
pub mod Total
pub mod Printed
pub mod Answers
use ultimate_db.Prelude.{
  ℕ, zero, suc, ◌+◌, Bool, true, false, ◌||◌, ◌&&◌, Option, none, some, List, [], ◌∷◌, length, leb,
  nat_eq, if◌then◌else◌, bytes_eq,
}
use ultimate_db.Roaring.{
  RoaringBitmap, new_roaring_bitmap, add, roaring_intersect, roaring_union, roaring_difference,
}
use ultimate_db.Index.{tokenize, fields_func}
use ultimate_db.Index.Segment.{fetch_postings}

-- `&NotQuery{left, right}` is what `left NOT right` asks for.
pub data Query : Type 0 where
  term_query : List ℕ → Query
  and_query or_query not_query : Query → Query → Query

pub data ParseError : Type 0 where
  too_nested missing_paren : ParseError
  unexpected : List ℕ → ParseError

-- What a parsing function returns, with the tokens it left. `endless` is no Go value: a loop on
-- the tokens ran out of fuel.
pub data Parsed : Type 0 where
  parsed : Query → List (List ℕ) → Parsed
  failed : ParseError → Parsed
  endless : Parsed

abbrev pub then_parse : Parsed → (Query → List (List ℕ) → Parsed) → Parsed
then_parse (parsed q rest) f = f q rest
then_parse (failed e) f = failed e
then_parse endless f = endless

abbrev pub open_paren : List ℕ
open_paren = b'(' ∷ []

abbrev pub close_paren : List ℕ
close_paren = b')' ∷ []

abbrev pub and_word : List ℕ
and_word = b'A' ∷ b'N' ∷ b'D' ∷ []

abbrev pub or_word : List ℕ
or_word = b'O' ∷ b'R' ∷ []

abbrev pub not_word : List ℕ
not_word = b'N' ∷ b'O' ∷ b'T' ∷ []

-- The parser's state is the tokens from `pos` on: `current` is "" past the end, and `consume` moves
-- on by one.
abbrev pub current : List (List ℕ) → List ℕ
current [] = []
current (t ∷ tokens) = t

abbrev pub consumed : List (List ℕ) → List (List ℕ)
consumed [] = []
consumed (t ∷ tokens) = tokens

-- The loop of `parseExpression`; a round takes a token at least.
unfoldable pub or_loop : (List (List ℕ) → Parsed) → ℕ → Query → List (List ℕ) → Parsed
or_loop term zero left tokens = endless
or_loop term (suc fuel) left tokens =
    if bytes_eq (current tokens) or_word
    then then_parse (term (consumed tokens))
        (λ right rest. or_loop term fuel (or_query left right) rest)
    else parsed left tokens

abbrev pub joined : List ℕ → Query → Query → Query
joined op left right = if bytes_eq op and_word then and_query left right else not_query left right

-- The loop of `parseTerm`.
unfoldable pub and_loop : (List (List ℕ) → Parsed) → ℕ → Query → List (List ℕ) → Parsed
and_loop factor zero left tokens = endless
and_loop factor (suc fuel) left tokens =
    if bytes_eq (current tokens) and_word || bytes_eq (current tokens) not_word
    then then_parse (factor (consumed tokens))
        (λ right rest. and_loop factor fuel (joined (current tokens) left right) rest)
    else parsed left tokens

-- The token a factor cannot start with.
unfoldable pub is_reserved : List ℕ → Bool
is_reserved token =
    bytes_eq token []
    || bytes_eq token close_paren
    || bytes_eq token and_word
    || bytes_eq token or_word
    || bytes_eq token not_word

-- if len(cleaned) == 0 { "" } else { cleaned[0] }
abbrev pub first_word : List (List ℕ) → List ℕ
first_word [] = []
first_word (w ∷ words) = w

abbrev pub close : Query → List (List ℕ) → Parsed
close q tokens =
    if bytes_eq (current tokens) close_paren
    then parsed q (consumed tokens)
    else failed missing_paren

-- The body of `parseFactor` past its depth check.
unfoldable pub factor_at : (List (List ℕ) → Parsed) → List (List ℕ) → Parsed
unfolding is_reserved tokenize
factor_at expression tokens =
    let token = current tokens in
    if bytes_eq token open_paren
    then then_parse (expression (consumed tokens)) close
    else if is_reserved token
    then failed (unexpected token)
    else parsed (term_query (first_word (tokenize token))) (consumed tokens)

-- The first argument is what `MaxQueryDepth` leaves of `p.depth`: a function counts itself on entry
-- and fails when nothing is left; on return the count is as before.
unfoldable mutual
  pub parse_expression : ℕ → List (List ℕ) → Parsed
  parse_expression zero tokens = failed too_nested
  parse_expression (suc room) tokens =
      then_parse (parse_term room tokens)
        (λ left rest. or_loop (parse_term room) (suc (length rest)) left rest)

  pub parse_term : ℕ → List (List ℕ) → Parsed
  parse_term zero tokens = failed too_nested
  parse_term (suc room) tokens =
      then_parse (parse_factor room tokens)
        (λ left rest. and_loop (parse_factor room) (suc (length rest)) left rest)

  pub parse_factor : ℕ → List (List ℕ) → Parsed
  parse_factor zero tokens = failed too_nested
  parse_factor (suc room) tokens = factor_at (parse_expression room) tokens

abbrev pub max_query_depth : ℕ
max_query_depth = 50

-- unicode.IsSpace
unfoldable pub is_space : ℕ → Bool
is_space c =
    (leb 9 c && leb c 13)
    || nat_eq c 32
    || nat_eq c 133
    || nat_eq c 160
    || nat_eq c 5760
    || (leb 8192 c && leb c 8202)
    || nat_eq c 8232
    || nat_eq c 8233
    || nat_eq c 8239
    || nat_eq c 8287
    || nat_eq c 12288

-- strings.ReplaceAll(input, c, " c "), for a single character
abbrev pub space_around : ℕ → List ℕ → List ℕ
space_around c [] = []
space_around c (x ∷ input) =
    let rest = space_around c input in if nat_eq x c then 32 ∷ c ∷ 32 ∷ rest else x ∷ rest

unfoldable pub query_tokens : List ℕ → List (List ℕ)
unfolding fields_func is_space
query_tokens input = fields_func is_space [] (space_around b')' (space_around b'(' input))

-- `ParseQuery`: the tokens that `parseExpression` leaves are dropped.
unfoldable pub parse_query : List ℕ → Parsed
unfolding parse_expression query_tokens
parse_query input = parse_expression max_query_depth (query_tokens input)

-- for _, id := range ids { bm.Add(id) }
abbrev pub add_all : List ℕ → RoaringBitmap → RoaringBitmap
add_all [] bm = bm
add_all (id ∷ ids) bm = add_all ids (add id bm)

abbrev pub of_ids : Option (List ℕ) → Option RoaringBitmap
of_ids none = none
of_ids (some ids) = some (add_all ids new_roaring_bitmap)

abbrev pub both :
    (RoaringBitmap → RoaringBitmap → RoaringBitmap)
    → Option RoaringBitmap
    → Option RoaringBitmap
    → Option RoaringBitmap
both op none b = none
both op (some a) none = none
both op (some a) (some b) = some (op a b)

-- `Execute` on a segment's bytes; `none` is the panic of `FetchPostings`.
unfoldable pub execute : List ℕ → Query → Option RoaringBitmap
unfolding fetch_postings
execute file (term_query t) = of_ids (fetch_postings file t)
execute file (and_query l r) = both roaring_intersect (execute file l) (execute file r)
execute file (or_query l r) = both roaring_union (execute file l) (execute file r)
execute file (not_query l r) = both roaring_difference (execute file l) (execute file r)

pub data Answer : Type 0 where
  answered : RoaringBitmap → Answer
  rejected : ParseError → Answer
  panicked : Answer
  unfinished : Answer

abbrev pub answer_of : Option RoaringBitmap → Answer
answer_of none = panicked
answer_of (some bm) = answered bm

abbrev pub answer_at : List ℕ → Parsed → Answer
answer_at file (parsed q rest) = answer_of (execute file q)
answer_at file (failed e) = rejected e
answer_at file endless = unfinished

unfoldable pub search : List ℕ → List ℕ → Answer
unfolding parse_query execute
search file input = answer_at file (parse_query input)
