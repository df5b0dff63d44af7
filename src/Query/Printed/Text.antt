-- ===== src/Query/Printed/Text.antt =====
-- A printed query as text, with a space behind every token.
use mathlib.Core.Path.{subst}
use ultimate_db.Prelude.{
  ℕ, ◌<◌, ◌≡◌, ap, ◌∙◌, sym, refl, Bool, true, false, ◌||◌, ◌&&◌, List, [], ◌∷◌, ◌++◌, append_assoc,
  append-nil, arith, bytes_eq, bytes_eq_iff, leb, All, Bool-cases, inl, inr, ◌⊎◌,
}
use ultimate_db.Index.{fields_func, end_word}
use ultimate_db.Query.{
  Query, term_query, and_query, or_query, not_query, parsed, or_word, and_word, not_word,
  close_paren, open_paren, is_space, space_around, query_tokens, parse_query, parse_expression,
  max_query_depth,
}
use ultimate_db.Query.Printed.{
  all_term, is_term, HasTerms, height, in_parens, print, parse_expression-print,
}

abbrev pub spaced : List (List ℕ) → List ℕ
spaced [] = []
spaced (t ∷ tokens) = t ++ (32 ∷ spaced tokens)

-- Letters and digits, which neither separate tokens nor are parentheses.
abbrev is_plain_rune : ℕ → Bool
is_plain_rune c = (leb 48 c && leb c 57) || (leb 65 c && leb c 90) || (leb 97 c && leb c 122)

unfoldable all_plain : List ℕ → Bool
all_plain [] = true
all_plain (c ∷ t) = is_plain_rune c && all_plain t

-- A token of a printed query.
unfoldable is_token : List ℕ → Bool
unfolding all_plain bytes_eq
is_token [] = false
is_token (c ∷ t) = all_plain (c ∷ t) || bytes_eq (c ∷ t) open_paren || bytes_eq (c ∷ t) close_paren

abbrev around : List ℕ → List ℕ
around input = space_around b')' (space_around b'(' input)

around-plain : (t rest : List ℕ) → all_plain t ≡ true → around (t ++ rest) ≡ t ++ around rest
unfolding all_plain
around-plain [] rest h = refl
around-plain (c ∷ t) rest h = ground (arith, h, around-plain t rest)

fields_func-plain :
    (word t rest : List ℕ)
    → all_plain t ≡ true
    → fields_func is_space word (t ++ (32 ∷ rest))
      ≡ end_word (word ++ t) (fields_func is_space [] rest)
unfolding fields_func is_space all_plain
fields_func-plain word [] rest h = ground (arith, append-nil word)
fields_func-plain word (c ∷ t) rest h =
    ground (arith, h, fields_func-plain (word ++ (c ∷ [])) t rest, append_assoc word (c ∷ []) t)

abbrev fields : List ℕ → List (List ℕ)
fields = fields_func is_space []

fields-open :
    (rest : List ℕ)
    → fields (around (open_paren ++ (32 ∷ rest))) ≡ open_paren ∷ fields (around rest)
unfolding fields_func is_space
fields-open rest = refl

fields-close :
    (rest : List ℕ)
    → fields (around (close_paren ++ (32 ∷ rest))) ≡ close_paren ∷ fields (around rest)
unfolding fields_func is_space
fields-close rest = refl

token-cases :
    (t : List ℕ)
    → is_token t ≡ true
    → (t ≡ open_paren) ⊎ (t ≡ close_paren) ⊎ ((all_plain t ≡ true) × (bytes_eq t [] ≡ false))
unfolding is_token bytes_eq
token-cases [] h = absurd (ground (arith, h))
token-cases (c ∷ t) h = elim (Bool-cases (bytes_eq (c ∷ t) open_paren)) [
  | inl e ↦ inl ((bytes_eq_iff (c ∷ t) open_paren).0 e)
  | inr e ↦ elim (Bool-cases (bytes_eq (c ∷ t) close_paren)) [
    | inl f ↦ inr (inl ((bytes_eq_iff (c ∷ t) close_paren).0 f))
    | inr f ↦ inr (inr (ground (arith, h, e, f), refl))
  ]
]

fields-plain :
    (t rest : List ℕ)
    → all_plain t ≡ true
    → bytes_eq t [] ≡ false
    → fields (around (t ++ (32 ∷ rest))) ≡ t ∷ fields (around rest)
unfolding bytes_eq
fields-plain [] rest h k = absurd (ground (arith, k))
fields-plain (c ∷ t) rest h k =
    ap fields (around-plain (c ∷ t) (32 ∷ rest) h) ∙ fields_func-plain [] (c ∷ t) (around rest) h

fields-token :
    (t rest : List ℕ)
    → is_token t ≡ true
    → fields (around (t ++ (32 ∷ rest))) ≡ t ∷ fields (around rest)
fields-token t rest h = elim (token-cases t h) [
  | inl e ↦
      subst (λ u. fields (around (u ++ (32 ∷ rest))) ≡ u ∷ fields (around rest)) (sym e)
        (fields-open rest)
  | inr (inl e) ↦
      subst (λ u. fields (around (u ++ (32 ∷ rest))) ≡ u ∷ fields (around rest)) (sym e)
        (fields-close rest)
  | inr (inr e) ↦ fields-plain t rest e.0 e.1
]

abbrev Tokens : List (List ℕ) → Type 0
Tokens = All (λ t. is_token t ≡ true)

-- The tokens of a spaced text are its tokens.
query_tokens-spaced :
    (tokens : List (List ℕ)) → Tokens tokens → query_tokens (spaced tokens) ≡ tokens
unfolding query_tokens fields_func
query_tokens-spaced [] h = refl
query_tokens-spaced (t ∷ tokens) h =
    fields-token t (spaced tokens) h.0 ∙ ap (λ rest. t ∷ rest) (query_tokens-spaced tokens h.1)

Tokens-append : (a b : List (List ℕ)) → Tokens a → Tokens b → Tokens (a ++ b)
Tokens-append [] b ha hb = hb
Tokens-append (t ∷ a) b ha hb = (ha.0, Tokens-append a b ha.1 hb)

term-plain_runes : (t : List ℕ) → all_term t ≡ true → all_plain t ≡ true
unfolding all_term all_plain
term-plain_runes [] h = refl
term-plain_runes (c ∷ t) h = ground (arith, h, term-plain_runes t)

term-token : (t : List ℕ) → is_term t ≡ true → is_token t ≡ true
unfolding is_term is_token
term-token [] h = absurd (ground (arith, h))
term-token (c ∷ t) h = ground (arith, term-plain_runes (c ∷ t) h)

in_parens-Tokens :
    (l r : List (List ℕ)) (op : List ℕ)
    → Tokens l
    → is_token op ≡ true
    → Tokens r
    → Tokens (in_parens l op r)
unfolding is_token all_plain bytes_eq
in_parens-Tokens l r op hl ho hr =
    (refl, Tokens-append l _ hl (ho, Tokens-append r _ hr (refl, tt)))

words : (is_token and_word ≡ true) × (is_token or_word ≡ true) × (is_token not_word ≡ true)
unfolding is_token all_plain bytes_eq
words = (refl, refl, refl)

print-Tokens : (q : Query) → HasTerms q → Tokens (print q)
unfolding print
print-Tokens (term_query t) h = (term-token t h, tt)
print-Tokens (and_query l r) h =
    in_parens-Tokens (print l) (print r) and_word (print-Tokens l h.0) words.0 (print-Tokens r h.1)
print-Tokens (or_query l r) h =
    in_parens-Tokens (print l) (print r) or_word (print-Tokens l h.0) words.1 (print-Tokens r h.1)
print-Tokens (not_query l r) h =
    in_parens-Tokens (print l) (print r) not_word (print-Tokens l h.0) words.2 (print-Tokens r h.1)

-- A query of terms in lower-case letters and digits whose operations nest less than sixteen deep,
-- printed with every operation in parentheses, parses to itself and leaves nothing.
pub parse_query-print :
    (q : Query) → HasTerms q → height q < 16 → parse_query (spaced (print q)) ≡ parsed q []
unfolding parse_query
parse_query-print q h k =
    ap (parse_expression max_query_depth) (query_tokens-spaced (print q) (print-Tokens q h))
    ∙ parse_expression-print q h (omega (arith, k))
