-- ===== src/Uql/Statements.antt =====
-- Which tokens of an input the statements' parsers read.
use ultimate_db.Prelude.{ℕ, zero, suc, ◌≡◌, refl, ap, ◌∙◌, true, false, List, arith}
use ultimate_db.Query.{Query}
use ultimate_db.Uql.{
  TokenType, Token, ◌is◌, iota, next_token, token_update, token_delete, token_insert, token_where,
  token_values, token_compressed,
}
use ultimate_db.Uql.Numbers.{parse_uint}
use ultimate_db.Uql.Parser.{
  ParserUql, UqlStatement, rejected, missing_where, advance, new_parser_uql, rest_where,
  update_statement, delete_statement, parse_update, parse_delete, parse_insert, insert_values,
  inserted, parse_at, parse_uql, cur_is,
}

-- What the lexer has left after `n` tokens, and the token that it reads then.
unfoldable pub rest_after : ℕ → List ℕ → List ℕ
unfolding next_token
rest_after zero s = s
rest_after (suc n) s = rest_after n (next_token s).1

abbrev pub nth_token : ℕ → List ℕ → Token
nth_token n s = (next_token (rest_after n s)).0

-- The statements that change documents by a filter, and the token at which their parsers want WHERE.
pub data WantsWhere : TokenType → ℕ → Type 0 where
  update_wants : WantsWhere token_update 7
  delete_wants : WantsWhere token_delete 4

starts :
    (input : List ℕ) (k : TokenType)
    → (nth_token 0 input).kind ≡ k
    → parse_uql input ≡ parse_at (new_parser_uql input) k
unfolding parse_uql new_parser_uql advance rest_after
starts input k h = ap (parse_at (new_parser_uql input)) h

abbrev steps : ℕ → ParserUql → ParserUql
steps zero p = p
steps (suc n) p = steps n (advance p)

rest_where-refused :
    (make : Query → UqlStatement) (p : ParserUql)
    → cur_is token_where p ≡ false
    → rest_where make p ≡ rejected missing_where
unfolding rest_where
rest_where-refused make p h = ground (arith, h)

-- UPDATE is refused unless the eighth token of the input is WHERE, and DELETE unless the fifth is:
-- in `UPDATE t SET f = v WHERE c` that is the token behind WHERE, and in `DELETE FROM t WHERE c` too.
pub parse_uql-second_where :
    (input : List ℕ) (k : TokenType) (n : ℕ)
    → WantsWhere k n
    → (nth_token 0 input).kind ≡ k
    → (nth_token n input).kind is token_where ≡ false
    → parse_uql input ≡ rejected missing_where
unfolding new_parser_uql advance rest_after parse_at parse_update parse_delete
parse_uql-second_where input k n update_wants h w =
    starts input token_update h
    ∙ rest_where-refused (λ f. update_statement f (steps 5 (new_parser_uql input)).cur_tok.literal)
        (steps 7 (new_parser_uql input)) w
parse_uql-second_where input k n delete_wants h w =
    starts input token_delete h
    ∙ rest_where-refused delete_statement (steps 4 (new_parser_uql input)) w

-- INSERT without COMPRESSED reads its third, fifth and seventh token behind the first.
pub parse_uql-insert :
    (input : List ℕ)
    → (nth_token 0 input).kind ≡ token_insert
    → (nth_token 1 input).kind is token_compressed ≡ false
    → (nth_token 3 input).kind ≡ token_values
    → parse_uql input
      ≡ inserted (parse_uint (nth_token 5 input).literal) (nth_token 7 input).literal false
unfolding new_parser_uql advance rest_after parse_at parse_insert insert_values
parse_uql-insert input h c v = starts input token_insert h ∙ ground (arith, c, v, same)
  where
    same : token_values is token_values ≡ true
    same = unfold iota in refl
