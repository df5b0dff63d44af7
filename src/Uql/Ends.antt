-- ===== src/Uql/Ends.antt =====
-- query.go's parser of statements: the bytes that a token takes, and the loop over a WHERE clause.
use mathlib.Core.Path.{subst}
use ultimate_db.Bytes.Utf8.{runes}
use ultimate_db.Index.{to_lower, map_runes}
use ultimate_db.Prelude.{
  ℕ, zero, suc, ◌+◌, ◌≤◌, ◌<◌, ◌≡◌, refl, Bool, true, false, ◌||◌, not, sym, Option, none, some,
  List, [], ◌∷◌, arith, nat_eq, length, if◌then◌else◌, split_if, Bool-cases, inl, inr, ◌⊎◌,
}
use ultimate_db.Query.{Query}
use ultimate_db.Query.Total.{parse_query_total}
use ultimate_db.Uql.{
  TokenType, Token, ◌is◌, iota, token_at, next_token, left_of, read_char, is_whitespace,
  in_identifier, is_letter, is_digit, in_string, token_eof, token_limit, token_where,
  token_compressed, token_asterisk, token_from, token_values, token_join, token_on, token_select,
  token_insert, token_update, token_delete, token_hset, token_recover, token_checkpoint, token_show,
  token_metrics,
}
use ultimate_db.Uql.Parser.{
  ParserUql, UqlStatement, UqlError, UqlResult, statement, rejected, unended, advance, collect,
  cur_is, Join, filtered, inserted, where_filter, join, select_where, rest_where, select_join,
  parse_select, parse_insert, select_from, insert_values, skipping, update_statement,
  delete_statement, parse_update, parse_delete, parse_hset, parse_at, parse_uql, new_parser_uql,
}
use ultimate_db.Uql.Numbers.{parse_uint}

length-left_of : (p : ℕ → Bool) (s : List ℕ) → length (left_of p s) ≤ length s
unfolding left_of
length-left_of p [] = omega arith
length-left_of p (c ∷ s) = ground (arith, length-left_of p s)

length-read_char : (s : List ℕ) → length (read_char s) ≤ length s
length-read_char [] = omega arith
length-read_char (c ∷ s) = omega arith

left_of-first :
    (p : ℕ → Bool) (c : ℕ) (s : List ℕ) → p c ≡ true → length (left_of p (c ∷ s)) ≤ length s
unfolding left_of
left_of-first p c s h = ground (arith, h, length-left_of p s)

-- A token that is not the end leaves fewer bytes.
abbrev Takes : List ℕ → Token × List ℕ → Type 0
Takes s r = (r.0.kind is token_eof ≡ false) → length r.1 < length s

token_at-Takes : (s : List ℕ) → Takes s (token_at s)
unfolding token_at iota in_identifier
token_at-Takes [] = λ h. absurd (ground (arith, h))
token_at-Takes (c ∷ s) =
    split_if T (nat_eq c b'(') _ _ (λ e h. omega arith)
      (λ e.
        split_if T (nat_eq c b')') _ _ (λ e h. omega arith)
          (λ e.
            split_if T (nat_eq c b'*') _ _ (λ e h. omega arith)
              (λ e.
                split_if T (nat_eq c b',') _ _ (λ e h. omega arith)
                  (λ e.
                    split_if T (nat_eq c b'=') _ _ (λ e h. omega arith)
                      (λ e.
                        split_if T (nat_eq c b':') _ _ (λ e h. omega arith)
                          (λ e.
                            split_if T (nat_eq c b'\'') _ _
                              (λ e h. ground (
                                arith,
                                length-left_of in_string s,
                                length-read_char (left_of in_string s),
                              ))
                              (λ e.
                                split_if T (nat_eq c 0) _ _ (λ e h. omega arith)
                                  (λ e.
                                    split_if T (is_letter c) _ _
                                      (λ e h. ground (
                                        arith,
                                        left_of-first in_identifier c s (ground (arith, e)),
                                      ))
                                      (λ e.
                                        split_if T (is_digit c) _ _
                                          (λ e h. ground (arith, left_of-first is_digit c s e))
                                          (λ e h. omega arith))))))))))
  where
    T : Token × List ℕ → Type 0
    T = Takes (c ∷ s)

next_token-Takes : (s : List ℕ) → Takes s (next_token s)
unfolding next_token
next_token-Takes s h =
    ground (arith, token_at-Takes (left_of is_whitespace s) h, length-left_of is_whitespace s)

abbrev Found : Option (List (List ℕ) × ParserUql) → Type 0
Found none = ⊥
Found (some r) = Unit

-- This fuel is enough for the tokens from the parser's on.
abbrev Enough : ParserUql → ℕ → Type 0
Enough p fuel =
    ((p.cur_tok.kind is token_eof ≡ true) × (1 ≤ fuel))
    ⊎ ((p.peek_tok.kind is token_eof ≡ true) × (2 ≤ fuel))
    ⊎ (length p.lexer + 3 ≤ fuel)

advance-Enough :
    (p : ParserUql) (fuel : ℕ)
    → p.cur_tok.kind is token_eof ≡ false
    → Enough p (suc fuel)
    → Enough (advance p) fuel
unfolding advance
advance-Enough p fuel ne (inl e) = absurd (ground (arith, ne, e))
advance-Enough p fuel ne (inr (inl e)) = inl (e.0, omega (arith, e.1))
advance-Enough p fuel ne (inr (inr e)) =
    elim (Bool-cases ((next_token p.lexer).0.kind is token_eof)) [
      | inl f ↦ inr (inl (f, omega (arith, e)))
      | inr f ↦ inr (inr (omega (arith, e, next_token-Takes p.lexer f)))
    ]

prepend-Found :
    (l : List ℕ) (o : Option (List (List ℕ) × ParserUql))
    → Found o
    → Found (elim o [ none ↦ none | some (literals, q) ↦ some (l ∷ literals, q) ])
prepend-Found l none h = h
prepend-Found l (some r) h = tt

collect-Found :
    (at_limit : Bool) (fuel : ℕ) (p : ParserUql) → Enough p fuel → Found (collect at_limit fuel p)
unfolding collect
collect-Found at_limit zero p (inl e) = absurd (omega (arith, e.1))
collect-Found at_limit zero p (inr (inl e)) = absurd (omega (arith, e.1))
collect-Found at_limit zero p (inr (inr e)) = absurd (omega (arith, e))
collect-Found at_limit (suc fuel) p enough =
    split_if Found (cur_is token_eof p || (if at_limit then cur_is token_limit p else false)) _ _
      (λ e. tt)
      (λ e. prepend-Found p.cur_tok.literal (collect at_limit fuel (advance p)) (
        collect-Found at_limit fuel (advance p) (advance-Enough p fuel (ground (arith, e)) enough)))

abbrev Ended : UqlResult → Type 0
Ended (statement s) = Unit
Ended (rejected e) = Unit
Ended unended = ⊥

filtered-Ended :
    (literals : List (List ℕ)) (make : Query → UqlStatement)
    → Ended (filtered (where_filter literals) make)
unfolding where_filter
filtered-Ended literals make =
    elim (parse_query_total (map_runes to_lower (runes (join literals)))) [
      | inl (e, h) ↦ subst (λ r. Ended (filtered r make)) (sym h) tt
      | inr (q, rest, h, less) ↦ subst (λ r. Ended (filtered r make)) (sym h) tt
    ]

collected :
    (o : Option (List (List ℕ) × ParserUql)) (done : List (List ℕ) × ParserUql → UqlResult)
    → Found o
    → ((r : List (List ℕ) × ParserUql) → Ended (done r))
    → Ended (elim o [ none ↦ unended | some r ↦ done r ])
collected none done h k = absurd h
collected (some r) done h k = k r

select_where-Ended :
    (compressed : Bool) (j : Join) (p : ParserUql) → Ended (select_where compressed j p)
unfolding select_where
select_where-Ended compressed (table, left, right) p =
    split_if Ended (not (cur_is token_where p)) _ _ (λ e. tt)
      (λ e.
        collected (collect true (length (advance p).lexer + 3) (advance p)) _
          (collect-Found true (length (advance p).lexer + 3) (advance p) (inr (inr (omega arith))))
          (λ r. filtered-Ended r.0 _))

rest_where-Ended : (make : Query → UqlStatement) (p : ParserUql) → Ended (rest_where make p)
unfolding rest_where
rest_where-Ended make p =
    split_if Ended (not (cur_is token_where p)) _ _ (λ e. tt)
      (λ e.
        collected (collect false (length (advance p).lexer + 3) (advance p)) _
          (collect-Found false (length (advance p).lexer + 3) (advance p) (inr (inr (omega arith))))
          (λ r. filtered-Ended r.0 make))

select_join-Ended : (compressed : Bool) (p : ParserUql) → Ended (select_join compressed p)
unfolding select_join
select_join-Ended compressed p =
    split_if Ended (not (cur_is token_join p)) _ _
      (λ e. select_where-Ended compressed ([], [], []) p)
      (λ e.
        split_if Ended (not (cur_is token_on (advance (advance p)))) _ _ (λ f. tt)
          (λ f.
            select_where-Ended compressed
              (
                (advance p).cur_tok.literal,
                (advance (advance (advance p))).cur_tok.literal,
                (advance (advance (advance (advance (advance p))))).cur_tok.literal,
              )
              (advance (advance (advance (advance (advance (advance p))))))))

select_from-Ended : (compressed : Bool) (p : ParserUql) → Ended (select_from compressed p)
unfolding select_from
select_from-Ended compressed p =
    split_if Ended (not (cur_is token_from (skipping token_asterisk p))) _ _ (λ e. tt)
      (λ e. select_join-Ended compressed (advance (advance (skipping token_asterisk p))))

inserted-Ended :
    (o : Option ℕ) (content : List ℕ) (compressed : Bool) → Ended (inserted o content compressed)
inserted-Ended none content compressed = tt
inserted-Ended (some id) content compressed = tt

insert_values-Ended : (compressed : Bool) (p : ParserUql) → Ended (insert_values compressed p)
unfolding insert_values
insert_values-Ended compressed p =
    split_if Ended (not (cur_is token_values (advance (advance p)))) _ _ (λ e. tt)
      (λ e.
        inserted-Ended (parse_uint (advance (advance (advance (advance p)))).cur_tok.literal)
          (advance (advance (advance (advance (advance (advance p)))))).cur_tok.literal compressed)

parse_at-Ended : (p : ParserUql) (k : TokenType) → Ended (parse_at p k)
unfolding parse_at
parse_at-Ended p token_select =
    unfold parse_select in
    select_from-Ended (cur_is token_compressed (advance p)) (skipping token_compressed (advance p))
parse_at-Ended p token_insert =
    unfold parse_insert in
    insert_values-Ended (cur_is token_compressed (advance p))
      (skipping token_compressed (advance p))
parse_at-Ended p token_update =
    unfold parse_update in
    rest_where-Ended
      (λ f. update_statement f (advance (advance (advance (advance (advance p))))).cur_tok.literal)
      (advance (advance (advance (advance (advance (advance (advance p)))))))
parse_at-Ended p token_delete =
    unfold parse_delete in
    rest_where-Ended delete_statement (advance (advance (advance (advance p))))
parse_at-Ended p token_hset = unfold parse_hset in tt
parse_at-Ended p token_recover = tt
parse_at-Ended p token_checkpoint = tt
parse_at-Ended p token_show =
    split_if Ended (p.peek_tok.kind is token_metrics) _ _ (λ e. tt) (λ e. tt)
parse_at-Ended p _ = tt

outcome_of :
    (r : UqlResult)
    → Ended r
    → ((s : UqlStatement) × (r ≡ statement s)) ⊎ ((e : UqlError) × (r ≡ rejected e))
outcome_of (statement s) h = inl (s, refl)
outcome_of (rejected e) h = inr (e, refl)
outcome_of unended h = absurd h

-- `ParseUQL` returns for every input: a statement or an error.
pub parse_uql_total :
    (input : List ℕ)
    → ((s : UqlStatement) × (parse_uql input ≡ statement s))
      ⊎ ((e : UqlError) × (parse_uql input ≡ rejected e))
unfolding parse_uql
parse_uql_total input =
    outcome_of (parse_uql input)
      (parse_at-Ended (new_parser_uql input) (new_parser_uql input).cur_tok.kind)
