-- ===== src/Tests/Statements.antt =====
-- Statements of UQL: their tokens, an INSERT and what becomes of a DELETE.
use ultimate_db.Prelude.{
  ℕ, ◌≡◌, ap, ◌∙◌, refl, false, List, [], ◌∷◌, ◌++◌, arith, ◌⊎◌, lookup, bytes_eq, bytes_key,
}
use ultimate_db.Bytes.Utf8.{runes}
use ultimate_db.Index.{to_lower, map_runes, fields_func}
use ultimate_db.Query.{term_query, parsed, parse_expression, parse_query, query_tokens, is_space}
use ultimate_db.Query.Printed.{
  print, height, is_term, all_term, print-Reads, parse_expression-factor,
}
use ultimate_db.Uql.{
  token_delete, token_where, next_token, token_at, left_of, passed, in_identifier, is_letter,
  is_digit, in_string, lookup_ident, keywords, iota,
}
use ultimate_db.Uql.Parser.{
  UqlStatement, UqlError, statement, rejected, missing_where, insert_statement, parse_uql,
  where_filter, join,
}
use ultimate_db.Uql.Ends.{parse_uql_total}
use ultimate_db.Uql.Filter.{where_filter_single}
use ultimate_db.Uql.Statements.{rest_after, nth_token, delete_wants, parse_uql-second_where}
use ultimate_db.Uql.Digits.{all_of}
use ultimate_db.Uql.Inserted.{insert_text, parse_uql-insert_text}

abbrev docs : List ℕ
docs = b'd' ∷ b'o' ∷ b'c' ∷ b's' ∷ []

abbrev cat : List ℕ
cat = b'c' ∷ b'a' ∷ b't' ∷ []

abbrev and_literal : List ℕ
and_literal = b'A' ∷ b'N' ∷ b'D' ∷ []

abbrev and_lower : List ℕ
and_lower = b'a' ∷ b'n' ∷ b'd' ∷ []

-- DELETE FROM docs WHERE cat
abbrev delete_text : List ℕ
delete_text =
    b'D'
    ∷ b'E'
    ∷ b'L'
    ∷ b'E'
    ∷ b'T'
    ∷ b'E'
    ∷ b' '
    ∷ b'F'
    ∷ b'R'
    ∷ b'O'
    ∷ b'M'
    ∷ b' '
    ∷ (docs ++ (b' ' ∷ b'W' ∷ b'H' ∷ b'E' ∷ b'R' ∷ b'E' ∷ b' ' ∷ cat))

delete_tokens_test :
    ((nth_token 0 delete_text).kind ≡ token_delete) × ((nth_token 3 delete_text).kind ≡ token_where)
unfolding rest_after next_token token_at left_of passed in_identifier is_letter is_digit
    lookup_ident keywords lookup bytes_eq
delete_tokens_test = (refl, refl)

-- The statement is refused.
parse_uql-second_where_example : parse_uql delete_text ≡ rejected missing_where
unfolding rest_after next_token token_at left_of passed in_identifier is_letter is_digit
    lookup_ident keywords lookup bytes_eq iota
parse_uql-second_where_example =
    parse_uql-second_where delete_text token_delete 4 delete_wants refl refl

parse_uql_total_example :
    ((s : UqlStatement) × (parse_uql delete_text ≡ statement s))
    ⊎ ((e : UqlError) × (parse_uql delete_text ≡ rejected e))
parse_uql_total_example = parse_uql_total delete_text

parse_uql-insert_text_example :
    parse_uql (insert_text docs 300 cat) ≡ statement (insert_statement 300 cat false)
unfolding bytes_eq all_of is_letter in_string
parse_uql-insert_text_example = parse_uql-insert_text docs 300 cat refl refl (omega arith) refl

-- WHERE cat AND docs
abbrev clause : List (List ℕ)
clause = cat ∷ and_literal ∷ docs ∷ []

clause_tokens :
    query_tokens (map_runes to_lower (runes (join clause))) ≡ cat ∷ and_lower ∷ docs ∷ []
unfolding query_tokens fields_func is_space to_lower runes
clause_tokens = refl

clause_parses : where_filter clause ≡ parsed (term_query cat) (and_lower ∷ docs ∷ [])
unfolding where_filter parse_query bytes_eq print height is_term all_term
clause_parses =
    ap (parse_expression 50) clause_tokens
    ∙ parse_expression-factor 48 (term_query cat) (cat ∷ and_lower ∷ docs ∷ [])
        (and_lower ∷ docs ∷ [])
        (print-Reads (term_query cat) refl 48 (and_lower ∷ docs ∷ []) (omega arith)) refl refl refl

where_filter_single_example : (t : List ℕ) × (term_query cat ≡ term_query t)
where_filter_single_example =
    where_filter_single clause (term_query cat) (and_lower ∷ docs ∷ []) clause_parses
