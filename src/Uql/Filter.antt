-- ===== src/Uql/Filter.antt =====
-- query.go: the WHERE clause of a statement, in lower case, as a query.
use mathlib.Core.Path.{subst}
use ultimate_db.Bytes.Utf8.{runes}
use ultimate_db.Uql.Parser.{join, where_filter}
use ultimate_db.Prelude.{
  ℕ, zero, suc, ◌≡◌, refl, Bool, true, false, not, ◌&&◌, ◌||◌, List, [], ◌∷◌, ◌++◌, arith, length,
  leb, split_if, bytes_eq, All,
}
use ultimate_db.Index.{to_lower, map_runes, fields_func, end_word}
use ultimate_db.Query.{
  Query, term_query, and_query, or_query, not_query, Parsed, parsed, failed, endless, then_parse,
  current, consumed, or_loop, and_loop, factor_at, is_reserved, open_paren, close_paren, close,
  and_word, or_word, not_word, parse_expression, parse_term, parse_factor, parse_query,
  query_tokens, space_around, is_space, max_query_depth,
}

abbrev is_upper : ℕ → Bool
is_upper c = leb b'A' c && leb c b'Z'

unfoldable no_upper : List ℕ → Bool
no_upper [] = true
no_upper (c ∷ s) = not (is_upper c) && no_upper s

lower-no_upper : (s : List ℕ) → no_upper (map_runes to_lower s) ≡ true
unfolding no_upper to_lower
lower-no_upper [] = refl
lower-no_upper (c ∷ s) = ground (arith, lower-no_upper s)

around-no_upper :
    (c : ℕ) (s : List ℕ)
    → is_upper c ≡ false
    → no_upper s ≡ true
    → no_upper (space_around c s) ≡ true
unfolding no_upper
around-no_upper c [] h k = refl
around-no_upper c (x ∷ s) h k = ground (arith, h, k, around-no_upper c s h)

append-no_upper : (a b : List ℕ) → no_upper a ≡ true → no_upper b ≡ true → no_upper (a ++ b) ≡ true
unfolding no_upper
append-no_upper [] b h k = k
append-no_upper (c ∷ a) b h k = ground (arith, h, append-no_upper a b)

abbrev Lowered : List (List ℕ) → Type 0
Lowered = All (λ t. no_upper t ≡ true)

end_word-Lowered :
    (word : List ℕ) (words : List (List ℕ))
    → no_upper word ≡ true
    → Lowered words
    → Lowered (end_word word words)
end_word-Lowered [] words h k = k
end_word-Lowered (c ∷ word) words h k = (h, k)

fields-Lowered :
    (sep : ℕ → Bool) (word s : List ℕ)
    → no_upper word ≡ true
    → no_upper s ≡ true
    → Lowered (fields_func sep word s)
unfolding fields_func no_upper
fields-Lowered sep word [] h k = end_word-Lowered word [] h tt
fields-Lowered sep word (c ∷ s) h k =
    split_if Lowered (sep c) _ _
      (λ e.
        end_word-Lowered word (fields_func sep [] s) h
          (fields-Lowered sep [] s refl (ground (arith, k))))
      (λ e.
        fields-Lowered sep (word ++ (c ∷ [])) s
          (append-no_upper word (c ∷ []) h (ground (arith, k))) (ground (arith, k)))

-- A single term, with tokens in lower case left; or an error.
abbrev Single : Parsed → Type 0
Single (parsed (term_query t) rest) = Lowered rest
Single (parsed q rest) = ⊥
Single (failed e) = Unit
Single endless = Unit

no_operator :
    (tokens : List (List ℕ))
    → Lowered tokens
    → (bytes_eq (current tokens) or_word ≡ false)
      × (bytes_eq (current tokens) and_word ≡ false)
      × (bytes_eq (current tokens) not_word ≡ false)
unfolding no_upper bytes_eq
no_operator [] h = (refl, refl, refl)
no_operator ([] ∷ tokens) h = (refl, refl, refl)
no_operator ((c ∷ t) ∷ tokens) h = (ground (arith, h.0), ground (arith, h.0), ground (arith, h.0))

then_parse-Single :
    (p : Parsed) (f : Query → List (List ℕ) → Parsed)
    → Single p
    → ((t : List ℕ) (rest : List (List ℕ)) → Lowered rest → Single (f (term_query t) rest))
    → Single (then_parse p f)
then_parse-Single (parsed (term_query t) rest) f h k = k t rest h
then_parse-Single (parsed (and_query l r) rest) f h k = absurd h
then_parse-Single (parsed (or_query l r) rest) f h k = absurd h
then_parse-Single (parsed (not_query l r) rest) f h k = absurd h
then_parse-Single (failed e) f h k = h
then_parse-Single endless f h k = h

or_loop-Single :
    (term : List (List ℕ) → Parsed) (fuel : ℕ) (t : List ℕ) (tokens : List (List ℕ))
    → Lowered tokens
    → Single (or_loop term fuel (term_query t) tokens)
unfolding or_loop
or_loop-Single term zero t tokens h = tt
or_loop-Single term (suc fuel) t tokens h =
    split_if Single (bytes_eq (current tokens) or_word) _ _
      (λ e. absurd (ground (arith, e, (no_operator tokens h).0))) (λ e. h)

and_loop-Single :
    (factor : List (List ℕ) → Parsed) (fuel : ℕ) (t : List ℕ) (tokens : List (List ℕ))
    → Lowered tokens
    → Single (and_loop factor fuel (term_query t) tokens)
unfolding and_loop
and_loop-Single factor zero t tokens h = tt
and_loop-Single factor (suc fuel) t tokens h =
    split_if Single (bytes_eq (current tokens) and_word || bytes_eq (current tokens) not_word) _ _
      (λ e. absurd (ground (arith, e, no_operator tokens h))) (λ e. h)

consumed-Lowered : (tokens : List (List ℕ)) → Lowered tokens → Lowered (consumed tokens)
consumed-Lowered [] h = tt
consumed-Lowered (t ∷ tokens) h = h.1

close-Single :
    (t : List ℕ) (tokens : List (List ℕ)) → Lowered tokens → Single (close (term_query t) tokens)
close-Single t tokens h =
    split_if Single (bytes_eq (current tokens) close_paren) _ _ (λ e. consumed-Lowered tokens h)
      (λ e. tt)

-- On tokens in lower case a parsing function returns a single term.
abbrev Singles : (List (List ℕ) → Parsed) → Type 0
Singles f = (tokens : List (List ℕ)) → Lowered tokens → Single (f tokens)

factor_at-Singles :
    (expression : List (List ℕ) → Parsed) → Singles expression → Singles (factor_at expression)
unfolding factor_at
factor_at-Singles expression single tokens h =
    split_if Single (bytes_eq (current tokens) open_paren) _ _
      (λ e.
        then_parse-Single (expression (consumed tokens)) close
          (single (consumed tokens) (consumed-Lowered tokens h)) close-Single)
      (λ e.
        split_if Single (is_reserved (current tokens)) _ _ (λ f. tt)
          (λ f. consumed-Lowered tokens h))

parse-Singles :
    (room : ℕ)
    → Singles (parse_expression room) × Singles (parse_term room) × Singles (parse_factor room)
unfolding parse_expression parse_term parse_factor
parse-Singles zero = (λ tokens h. tt, λ tokens h. tt, λ tokens h. tt)
parse-Singles (suc room) =
    let (expression, term, factor) = parse-Singles room in
    (
      λ tokens h.
          then_parse-Single (parse_term room tokens) _ (term tokens h)
            (λ t rest k. or_loop-Single (parse_term room) (suc (length rest)) t rest k),
      λ tokens h.
          then_parse-Single (parse_factor room tokens) _ (factor tokens h)
            (λ t rest k. and_loop-Single (parse_factor room) (suc (length rest)) t rest k),
      factor_at-Singles (parse_expression room) expression,
    )

only_term :
    (p : Parsed) (q : Query) (rest : List (List ℕ))
    → Single p
    → p ≡ parsed q rest
    → (t : List ℕ) × (q ≡ term_query t)
only_term p (term_query t) rest h e = (t, refl)
only_term p (and_query l r) rest h e = absurd (subst Single e h)
only_term p (or_query l r) rest h e = absurd (subst Single e h)
only_term p (not_query l r) rest h e = absurd (subst Single e h)

query_tokens-Lowered : (text : List ℕ) → no_upper text ≡ true → Lowered (query_tokens text)
unfolding query_tokens no_upper
query_tokens-Lowered text h =
    fields-Lowered is_space [] (space_around b')' (space_around b'(' text)) refl
      (around-no_upper b')' (space_around b'(' text) refl (around-no_upper b'(' text refl h))

-- A WHERE clause that parses is a single term, whatever AND, OR and NOT it has: its operators are
-- in lower case when the parser of queries looks for them.
pub where_filter_single :
    (literals : List (List ℕ)) (q : Query) (rest : List (List ℕ))
    → where_filter literals ≡ parsed q rest
    → (t : List ℕ) × (q ≡ term_query t)
unfolding where_filter parse_query
where_filter_single literals q rest e =
    only_term (where_filter literals) q rest
      (single (query_tokens text)
        (query_tokens-Lowered text (lower-no_upper (runes (join literals)))))
      e
  where
    text : List ℕ
    text = map_runes to_lower (runes (join literals))

    single : Singles (parse_expression max_query_depth)
    single = (parse-Singles max_query_depth).0
