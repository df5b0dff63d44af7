-- ===== src/Uql/Parser.antt =====
-- query.go: the parser of UQL statements, and its statements.
use ultimate_db.Prelude.{
  ℕ, zero, suc, ◌+◌, Bool, true, false, not, ◌||◌, Option, none, some, List, [], ◌∷◌, ◌++◌, length,
  if◌then◌else◌, ℤ, pos,
}
use ultimate_db.Bytes.Utf8.{runes}
use ultimate_db.Index.{to_lower, map_runes}
use ultimate_db.Query.{Query, ParseError, Parsed, parsed, failed, endless, parse_query}
use ultimate_db.Uql.{
  TokenType, Token, ◌is◌, iota, token, next_token, token_illegal, token_eof, token_select,
  token_insert, token_values, token_update, token_delete, token_from, token_where, token_join,
  token_on, token_limit, token_hset, token_compressed, token_recover, token_checkpoint, token_show,
  token_metrics, token_asterisk,
}
use ultimate_db.Uql.Numbers.{parse_uint, atoi}

pub record SelectStatement : Type 0 where
  pub filter : Query
  pub limit : ℤ
  pub is_compressed : Bool
  pub join_table : List ℕ
  pub join_on_left : List ℕ
  pub join_on_right : List ℕ

pub data UqlStatement : Type 0 where
  select_statement : SelectStatement → UqlStatement
  insert_statement : ℕ → List ℕ → Bool → UqlStatement
  update_statement : Query → List ℕ → UqlStatement
  delete_statement : Query → UqlStatement
  hset_statement : List ℕ → List ℕ → List ℕ → UqlStatement
  recover_statement checkpoint_statement metrics_statement : UqlStatement

pub data UqlError : Type 0 where
  expected_from expected_on missing_where expected_values invalid_id : UqlError
  bad_filter : ParseError → UqlError
  unexpected_target unknown_statement : List ℕ → UqlError

-- `unended` is no Go value: a loop ran out of fuel.
pub data UqlResult : Type 0 where
  statement : UqlStatement → UqlResult
  rejected : UqlError → UqlResult
  unended : UqlResult

pub record ParserUql : Type 0 where
  pub lexer : List ℕ
  pub cur_tok : Token
  pub peek_tok : Token

-- nextToken
unfoldable pub advance : ParserUql → ParserUql
unfolding next_token
advance p = record {
  lexer = (next_token p.lexer).1;
  cur_tok = p.peek_tok;
  peek_tok = (next_token p.lexer).0;
}

abbrev no_token : Token
no_token = token token_illegal []

unfoldable pub new_parser_uql : List ℕ → ParserUql
unfolding advance
new_parser_uql input =
    advance (advance (record { lexer = input; cur_tok = no_token; peek_tok = no_token }))

abbrev pub cur_is : TokenType → ParserUql → Bool
cur_is k p = p.cur_tok.kind is k

-- The loop that collects the literals of a WHERE clause; `at_limit` is whether LIMIT ends it too.
unfoldable pub collect : Bool → ℕ → ParserUql → Option (List (List ℕ) × ParserUql)
unfolding advance iota
collect at_limit zero p = none
collect at_limit (suc fuel) p =
    let more = collect at_limit fuel (advance p) in
    if cur_is token_eof p || (if at_limit then cur_is token_limit p else false)
    then some ([], p)
    else elim more [ none ↦ none | some (literals, q) ↦ some (p.cur_tok.literal ∷ literals, q) ]

-- strings.Join(literals, " ")
abbrev pub join : List (List ℕ) → List ℕ
join [] = []
join (l ∷ []) = l
join (l ∷ m ∷ literals) = l ++ (32 ∷ join (m ∷ literals))

-- ParseQuery(strings.ToLower(strings.Join(remaining, " ")))
unfoldable pub where_filter : List (List ℕ) → Parsed
unfolding to_lower runes parse_query
where_filter literals = parse_query (map_runes to_lower (runes (join literals)))

abbrev pub filtered : Parsed → (Query → UqlStatement) → UqlResult
filtered (parsed q rest) make = statement (make q)
filtered (failed e) make = rejected (bad_filter e)
filtered endless make = unended

abbrev limit_of : Option ℤ → ℤ
limit_of none = pos 100
limit_of (some n) = n

-- The LIMIT clause at the parser's token, if one is there.
abbrev limit_at : ParserUql → ℤ
limit_at p = if cur_is token_limit p then limit_of (atoi (advance p).cur_tok.literal) else pos 100

abbrev fuel_of : ParserUql → ℕ
fuel_of p = length p.lexer + 3

abbrev pub Join : Type 0
Join = List ℕ × List ℕ × List ℕ

-- From the WHERE keyword on; the token under `p` is the keyword.
unfoldable pub select_where : Bool → Join → ParserUql → UqlResult
unfolding collect where_filter atoi
select_where compressed (table, left, right) p =
    let p1 = advance p in
    if not (cur_is token_where p)
    then rejected missing_where
    else elim (collect true (fuel_of p1) p1) [
      | none ↦ unended
      | some (literals, q) ↦ filtered (where_filter literals) (λ f. select_statement (record {
        filter = f;
        limit = limit_at q;
        is_compressed = compressed;
        join_table = table;
        join_on_left = left;
        join_on_right = right;
      }))
    ]

-- The JOIN clause, if one is there; then WHERE.
unfoldable pub select_join : Bool → ParserUql → UqlResult
unfolding select_where
select_join compressed p =
    let p1 = advance p in
    let p2 = advance p1 in
    let p3 = advance p2 in
    let p5 = advance (advance p3) in
    if not (cur_is token_join p)
    then select_where compressed ([], [], []) p
    else if not (cur_is token_on p2)
    then rejected expected_on
    else select_where compressed (p1.cur_tok.literal, p3.cur_tok.literal, p5.cur_tok.literal)
        (advance p5)

-- if p.curTok.Type == k { p.nextToken() }
abbrev pub skipping : TokenType → ParserUql → ParserUql
skipping k p = if cur_is k p then advance p else p

-- After COMPRESSED.
unfoldable pub select_from : Bool → ParserUql → UqlResult
unfolding select_join
select_from compressed p =
    let p1 = skipping token_asterisk p in
    if not (cur_is token_from p1)
    then rejected expected_from
    else select_join compressed (advance (advance p1))

unfoldable pub parse_select : ParserUql → UqlResult
unfolding select_from
parse_select p =
    let p1 = advance p in select_from (cur_is token_compressed p1) (skipping token_compressed p1)

abbrev pub inserted : Option ℕ → List ℕ → Bool → UqlResult
inserted none content compressed = rejected invalid_id
inserted (some id) content compressed = statement (insert_statement id content compressed)

-- From INTO on.
unfoldable pub insert_values : Bool → ParserUql → UqlResult
unfolding parse_uint
insert_values compressed p =
    let p1 = advance (advance p) in
    let p2 = advance (advance p1) in
    let p3 = advance (advance p2) in
    if not (cur_is token_values p1)
    then rejected expected_values
    else inserted (parse_uint p2.cur_tok.literal) p3.cur_tok.literal compressed

unfoldable pub parse_insert : ParserUql → UqlResult
unfolding insert_values
parse_insert p =
    let p1 = advance p in insert_values (cur_is token_compressed p1) (skipping token_compressed p1)

-- The filter after the WHERE keyword under `p`, to the end.
unfoldable pub rest_where : (Query → UqlStatement) → ParserUql → UqlResult
unfolding collect where_filter
rest_where make p =
    let p1 = advance p in
    if not (cur_is token_where p)
    then rejected missing_where
    else elim (collect false (fuel_of p1) p1) [
      | none ↦ unended
      | some (literals, q) ↦ filtered (where_filter literals) make
    ]

unfoldable pub parse_update : ParserUql → UqlResult
unfolding rest_where
parse_update p =
    let p1 = advance (advance (advance (advance (advance p)))) in
    rest_where (λ f. update_statement f p1.cur_tok.literal) (advance (advance p1))

unfoldable pub parse_delete : ParserUql → UqlResult
unfolding rest_where
parse_delete p = rest_where delete_statement (advance (advance (advance (advance p))))

unfoldable pub parse_hset : ParserUql → UqlResult
parse_hset p =
    let p1 = advance p in
    let p2 = advance p1 in
    let p3 = advance p2 in
    statement (hset_statement p1.cur_tok.literal p2.cur_tok.literal p3.cur_tok.literal)

-- The switch of `ParseUQL`.
unfoldable pub parse_at : ParserUql → TokenType → UqlResult
unfolding parse_select parse_insert parse_update parse_delete parse_hset
parse_at p token_select = parse_select p
parse_at p token_insert = parse_insert p
parse_at p token_update = parse_update p
parse_at p token_delete = parse_delete p
parse_at p token_hset = parse_hset p
parse_at p token_recover = statement recover_statement
parse_at p token_checkpoint = statement checkpoint_statement
parse_at p token_show =
    if p.peek_tok.kind is token_metrics
    then statement metrics_statement
    else rejected (unexpected_target p.peek_tok.literal)
parse_at p _ = rejected (unknown_statement p.cur_tok.literal)

unfoldable pub parse_uql : List ℕ → UqlResult
unfolding parse_at new_parser_uql
parse_uql input = let p = new_parser_uql input in parse_at p p.cur_tok.kind
