-- ===== src/Query/Total.antt =====
-- ast.go's parser: the tokens that each function takes, and the bound on nesting.
use ultimate_db.Prelude.{
  ℕ, zero, suc, ◌*◌, ◌≤◌, ◌<◌, ◌≡◌, ap, ◌∙◌, refl, ◌||◌, List, [], ◌∷◌, ◌++◌, arith, length,
  bytes_eq, split_if, inl, inr, ◌⊎◌, replicate,
}
use ultimate_db.Query.{
  Query, ParseError, Parsed, parsed, failed, endless, too_nested, or_query, then_parse, current,
  consumed, or_loop, and_loop, factor_at, parse_expression, parse_term, parse_factor, parse_query,
  query_tokens, or_word, and_word, not_word, joined, close, close_paren, open_paren, is_reserved,
  max_query_depth,
}

-- The function ends with an error, or with fewer than `n` tokens left.
abbrev Leaves : ℕ → Parsed → Type 0
Leaves n (parsed q rest) = length rest < n
Leaves n (failed e) = Unit
Leaves n endless = ⊥

then_parse-Leaves :
    (a n : ℕ) (p : Parsed) (f : Query → List (List ℕ) → Parsed)
    → Leaves a p
    → ((q : Query) (rest : List (List ℕ)) → length rest < a → Leaves n (f q rest))
    → Leaves n (then_parse p f)
then_parse-Leaves a n (parsed q rest) f h k = k q rest h
then_parse-Leaves a n (failed e) f h k = tt
then_parse-Leaves a n endless f h k = h

-- What a parsing function does with the tokens it gets.
abbrev Consumes : (List (List ℕ) → Parsed) → Type 0
Consumes f = (tokens : List (List ℕ)) → Leaves (length tokens) (f tokens)

length-consumed : (tokens : List (List ℕ)) → length (consumed tokens) ≤ length tokens
length-consumed [] = omega arith
length-consumed (t ∷ tokens) = omega arith

or_loop-Leaves :
    (n : ℕ) (term : List (List ℕ) → Parsed) (fuel : ℕ) (left : Query) (tokens : List (List ℕ))
    → Consumes term
    → length tokens < n
    → length tokens < fuel
    → Leaves n (or_loop term fuel left tokens)
unfolding or_loop
or_loop-Leaves n term zero left tokens takes h k = absurd (omega (arith, k))
or_loop-Leaves n term (suc fuel) left tokens takes h k =
    split_if (Leaves n) (bytes_eq (current tokens) or_word) _ _
      (λ e.
        then_parse-Leaves (length (consumed tokens)) n (term (consumed tokens)) _
          (takes (consumed tokens))
          (λ q rest lt.
            or_loop-Leaves n term fuel (or_query left q) rest takes
              (omega (arith, lt, h, length-consumed tokens))
              (omega (arith, lt, k, length-consumed tokens))))
      (λ e. h)

and_loop-Leaves :
    (n : ℕ) (factor : List (List ℕ) → Parsed) (fuel : ℕ) (left : Query) (tokens : List (List ℕ))
    → Consumes factor
    → length tokens < n
    → length tokens < fuel
    → Leaves n (and_loop factor fuel left tokens)
unfolding and_loop
and_loop-Leaves n factor zero left tokens takes h k = absurd (omega (arith, k))
and_loop-Leaves n factor (suc fuel) left tokens takes h k =
    split_if (Leaves n) (bytes_eq (current tokens) and_word || bytes_eq (current tokens) not_word) _
      _
      (λ e.
        then_parse-Leaves (length (consumed tokens)) n (factor (consumed tokens)) _
          (takes (consumed tokens))
          (λ q rest lt.
            and_loop-Leaves n factor fuel (joined (current tokens) left q) rest takes
              (omega (arith, lt, h, length-consumed tokens))
              (omega (arith, lt, k, length-consumed tokens))))
      (λ e. h)

close-Leaves :
    (n : ℕ) (q : Query) (tokens : List (List ℕ)) → length tokens < n → Leaves n (close q tokens)
close-Leaves n q tokens h =
    split_if (Leaves n) (bytes_eq (current tokens) close_paren) _ _
      (λ e. omega (arith, h, length-consumed tokens)) (λ e. tt)

factor_at-Consumes :
    (expression : List (List ℕ) → Parsed) → Consumes expression → Consumes (factor_at expression)
unfolding factor_at is_reserved bytes_eq
factor_at-Consumes expression takes [] = tt
factor_at-Consumes expression takes (t ∷ tokens) =
    split_if (Leaves (suc (length tokens))) (bytes_eq t open_paren) _ _
      (λ e.
        then_parse-Leaves (length tokens) (suc (length tokens)) (expression tokens) close
          (takes tokens)
          (λ q rest lt. close-Leaves (suc (length tokens)) q rest (omega (arith, lt))))
      (λ e.
        split_if (Leaves (suc (length tokens))) (is_reserved t) _ _ (λ f. tt) (λ f. omega arith))

-- Each function takes a token at least, or fails.
parse-Consumes :
    (room : ℕ)
    → Consumes (parse_expression room) × Consumes (parse_term room) × Consumes (parse_factor room)
unfolding parse_expression parse_term parse_factor
parse-Consumes zero = (λ tokens. tt, λ tokens. tt, λ tokens. tt)
parse-Consumes (suc room) =
    let (expression, term, factor) = parse-Consumes room in
    (
      λ tokens.
          then_parse-Leaves (length tokens) (length tokens) (parse_term room tokens) _ (term tokens)
            (λ left rest lt.
              or_loop-Leaves (length tokens) (parse_term room) (suc (length rest)) left rest term lt
                (omega arith)),
      λ tokens.
          then_parse-Leaves (length tokens) (length tokens) (parse_factor room tokens) _
            (factor tokens)
            (λ left rest lt.
              and_loop-Leaves (length tokens) (parse_factor room) (suc (length rest)) left rest
                factor lt (omega arith)),
      factor_at-Consumes (parse_expression room) expression,
    )

outcome :
    (n : ℕ) (p : Parsed)
    → Leaves n p
    → ((e : ParseError) × (p ≡ failed e))
      ⊎ ((q : Query) × (rest : List (List ℕ)) × (p ≡ parsed q rest) × (length rest < n))
outcome n (parsed q rest) h = inr (q, rest, refl, h)
outcome n (failed e) h = inl (e, refl)
outcome n endless h = absurd h

-- `ParseQuery` always returns: an error, or a query for which it has taken one token at least.
pub parse_query_total :
    (input : List ℕ)
    → ((e : ParseError) × (parse_query input ≡ failed e))
      ⊎ ((q : Query) × (rest : List (List ℕ)) × (parse_query input ≡ parsed q rest)
          × (length rest < length (query_tokens input)))
unfolding parse_query
parse_query_total input =
    outcome (length (query_tokens input)) (parse_expression max_query_depth (query_tokens input))
      ((parse-Consumes max_query_depth).0 (query_tokens input))

nested_too_deeply :
    (k room : ℕ) (rest : List (List ℕ))
    → room ≤ 3 * k
    → parse_expression room (replicate k open_paren ++ rest) ≡ failed too_nested
unfolding parse_expression parse_term parse_factor factor_at bytes_eq
nested_too_deeply zero zero rest h = refl
nested_too_deeply zero (suc room) rest h = absurd (omega (arith, h))
nested_too_deeply (suc k) zero rest h = refl
nested_too_deeply (suc k) (suc zero) rest h = refl
nested_too_deeply (suc k) (suc (suc zero)) rest h = refl
nested_too_deeply (suc k) (suc (suc (suc room))) rest h =
    ground (arith, nested_too_deeply k room rest (omega (arith, h)))

-- Seventeen parentheses opened at once are too many for `MaxQueryDepth`: each level counts three
-- times.
pub parse_query-nested :
    (input : List ℕ) (rest : List (List ℕ))
    → query_tokens input ≡ replicate 17 open_paren ++ rest
    → parse_query input ≡ failed too_nested
unfolding parse_query
parse_query-nested input rest h =
    ap (parse_expression max_query_depth) h
    ∙ nested_too_deeply 17 max_query_depth rest (omega arith)
