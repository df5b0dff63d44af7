-- ===== src/Query/Printed.antt =====
-- Queries printed with a parenthesis around every operation, and their tokens parsed again.
pub mod Text
use ultimate_db.Prelude.{
  ℕ, zero, suc, ◌+◌, ◌*◌, ◌≤◌, ◌<◌, ◌≡◌, ap, ◌∙◌, sym, refl, Bool, true, false, ◌||◌, ◌&&◌, not,
  List, [], ◌∷◌, ◌++◌, append_assoc, append-nil, arith, length, if◌then◌else◌, bytes_eq, leb, ltb,
  &&-eq_true,
}
use ultimate_db.Index.{tokenize, fields_func, clean, to_lower, map_runes}
use ultimate_db.Query.{
  Query, term_query, and_query, or_query, not_query, Parsed, parsed, then_parse, current, consumed,
  or_loop, and_loop, factor_at, parse_expression, parse_term, parse_factor, or_word, and_word,
  not_word, joined, close, close_paren, open_paren, is_reserved, first_word, max_query_depth,
}

-- What `Tokenize` keeps of a term as it is: lower-case letters and digits, one at least.
abbrev pub is_term_rune : ℕ → Bool
is_term_rune c = (leb 97 c && leb c 122) || (leb 48 c && leb c 57)

unfoldable pub all_term : List ℕ → Bool
all_term [] = true
all_term (c ∷ t) = is_term_rune c && all_term t

unfoldable pub is_term : List ℕ → Bool
unfolding all_term
is_term [] = false
is_term (c ∷ t) = all_term (c ∷ t)

-- The terms of a query are such terms.
abbrev pub HasTerms : Query → Type 0
HasTerms (term_query t) = is_term t ≡ true
HasTerms (and_query l r) = HasTerms l × HasTerms r
HasTerms (or_query l r) = HasTerms l × HasTerms r
HasTerms (not_query l r) = HasTerms l × HasTerms r

abbrev pub larger : ℕ → ℕ → ℕ
larger a b = if ltb a b then b else a

-- How deep the operations nest.
unfoldable pub height : Query → ℕ
height (term_query t) = 0
height (and_query l r) = suc (larger (height l) (height r))
height (or_query l r) = suc (larger (height l) (height r))
height (not_query l r) = suc (larger (height l) (height r))

abbrev pub in_parens : List (List ℕ) → List ℕ → List (List ℕ) → List (List ℕ)
in_parens l op r = open_paren ∷ (l ++ (op ∷ (r ++ (close_paren ∷ []))))

unfoldable pub print : Query → List (List ℕ)
print (term_query t) = t ∷ []
print (and_query l r) = in_parens (print l) and_word (print r)
print (or_query l r) = in_parens (print l) or_word (print r)
print (not_query l r) = in_parens (print l) not_word (print r)

fields_func-term :
    (word t : List ℕ)
    → all_term t ≡ true
    → fields_func clean word (map_runes to_lower t) ≡ fields_func clean (word ++ t) []
unfolding fields_func clean to_lower all_term
fields_func-term word [] h = ground (arith, append-nil word)
fields_func-term word (c ∷ t) h =
    ground (arith, h, fields_func-term (word ++ (c ∷ [])) t, append_assoc word (c ∷ []) t)

first_word-tokenize : (t : List ℕ) → is_term t ≡ true → first_word (tokenize t) ≡ t
unfolding tokenize is_term fields_func
first_word-tokenize [] h = refl
first_word-tokenize (c ∷ t) h = ap first_word (fields_func-term [] (c ∷ t) h)

term-plain :
    (t : List ℕ) → is_term t ≡ true → (is_reserved t ≡ false) × (bytes_eq t open_paren ≡ false)
unfolding is_term all_term is_reserved bytes_eq
term-plain [] h = absurd (ground (arith, h))
term-plain (c ∷ t) h = (ground (arith, h), ground (arith, h))

-- With this room `parseFactor` reads the query off the front of any tokens.
abbrev pub Reads : Query → Type 0
Reads q =
    (room : ℕ) (rest : List (List ℕ))
    → 3 * height q < room
    → parse_factor room (print q ++ rest) ≡ parsed q rest

term-Reads : (t : List ℕ) → is_term t ≡ true → Reads (term_query t)
unfolding parse_factor factor_at print height
term-Reads t h zero rest k = absurd (omega (arith, k))
term-Reads t h (suc room) rest k = ground (arith, term-plain t h, first_word-tokenize t h)

-- A factor in parentheses.
parens :
    (room : ℕ) (tokens rest : List (List ℕ)) (q : Query)
    → parse_expression room tokens ≡ parsed q (close_paren ∷ rest)
    → parse_factor (suc room) (open_paren ∷ tokens) ≡ parsed q rest
unfolding parse_factor factor_at bytes_eq
parens room tokens rest q h = rw h refl

module _ (l r : Query) (l_reads : Reads l) (r_reads : Reads r) (room : ℕ) (rest : List (List ℕ))
    (lh : 3 * height l < room) (rh : 3 * height r < room) where
  abbrev left_then : List ℕ → List (List ℕ)
  left_then op = print l ++ (op ∷ (print r ++ (close_paren ∷ rest)))

  and_term :
      parse_term (suc room) (left_then and_word) ≡ parsed (and_query l r) (close_paren ∷ rest)
  unfolding parse_term and_loop bytes_eq
  and_term = ground (
    arith,
    l_reads room (and_word ∷ (print r ++ (close_paren ∷ rest))) lh,
    r_reads room (close_paren ∷ rest) rh,
  )

  not_term :
      parse_term (suc room) (left_then not_word) ≡ parsed (not_query l r) (close_paren ∷ rest)
  unfolding parse_term and_loop bytes_eq
  not_term = ground (
    arith,
    l_reads room (not_word ∷ (print r ++ (close_paren ∷ rest))) lh,
    r_reads room (close_paren ∷ rest) rh,
  )

  and_expression :
      parse_expression (suc (suc room)) (left_then and_word)
      ≡ parsed (and_query l r) (close_paren ∷ rest)
  unfolding parse_expression or_loop bytes_eq
  and_expression = rw and_term refl

  not_expression :
      parse_expression (suc (suc room)) (left_then not_word)
      ≡ parsed (not_query l r) (close_paren ∷ rest)
  unfolding parse_expression or_loop bytes_eq
  not_expression = rw not_term refl

  left_alone :
      parse_term (suc room) (left_then or_word)
      ≡ parsed l (or_word ∷ (print r ++ (close_paren ∷ rest)))
  unfolding parse_term and_loop bytes_eq
  left_alone = ground (arith, l_reads room (or_word ∷ (print r ++ (close_paren ∷ rest))) lh)

  right_alone :
      parse_term (suc room) (print r ++ (close_paren ∷ rest)) ≡ parsed r (close_paren ∷ rest)
  unfolding parse_term and_loop bytes_eq
  right_alone = ground (arith, r_reads room (close_paren ∷ rest) rh)

  or_expression :
      parse_expression (suc (suc room)) (left_then or_word)
      ≡ parsed (or_query l r) (close_paren ∷ rest)
  unfolding parse_expression or_loop bytes_eq
  or_expression = ground (arith, left_alone, right_alone)

-- An operation in parentheses is read, if its parts are and its inside is read as an expression.
parens-Reads :
    (q : Query) (l r : Query) (op : List ℕ)
    → ((rest : List (List ℕ))
        → print q ++ rest ≡ open_paren ∷ (print l ++ (op ∷ (print r ++ (close_paren ∷ rest)))))
    → height q ≡ suc (larger (height l) (height r))
    → ((room : ℕ) (rest : List (List ℕ))
        → 3 * height l < room
        → 3 * height r < room
        → parse_expression (suc (suc room)) (print l ++ (op ∷ (print r ++ (close_paren ∷ rest))))
          ≡ parsed q (close_paren ∷ rest))
    → Reads q
parens-Reads q l r op layout high expr zero rest k = absurd (omega (arith, k))
parens-Reads q l r op layout high expr (suc zero) rest k = absurd (ground (arith, k, high))
parens-Reads q l r op layout high expr (suc (suc zero)) rest k = absurd (ground (arith, k, high))
parens-Reads q l r op layout high expr (suc (suc (suc room))) rest k =
    ap (parse_factor (suc (suc (suc room)))) (layout rest)
    ∙ parens (suc (suc room)) _ rest q
        (expr room rest (ground (arith, k, high)) (ground (arith, k, high)))

in_parens-append :
    (l r rest : List (List ℕ)) (op : List ℕ)
    → in_parens l op r ++ rest ≡ open_paren ∷ (l ++ (op ∷ (r ++ (close_paren ∷ rest))))
in_parens-append l r rest op =
    ap (λ tokens. open_paren ∷ tokens)
      (append_assoc l (op ∷ (r ++ (close_paren ∷ []))) rest
        ∙ ap (λ tokens. l ++ (op ∷ tokens)) (append_assoc r (close_paren ∷ []) rest))

-- `parseFactor` reads a printed query off the front of any tokens, in a room of three for each
-- level.
pub print-Reads : (q : Query) → HasTerms q → Reads q
unfolding print height
print-Reads (term_query t) h = term-Reads t h
print-Reads (and_query l r) h =
    parens-Reads (and_query l r) l r and_word
      (λ rest. in_parens-append (print l) (print r) rest and_word) refl
      (λ room rest lh rh.
        and_expression l r (print-Reads l h.0) (print-Reads r h.1) room rest lh rh)
print-Reads (or_query l r) h =
    parens-Reads (or_query l r) l r or_word
      (λ rest. in_parens-append (print l) (print r) rest or_word) refl
      (λ room rest lh rh. or_expression l r (print-Reads l h.0) (print-Reads r h.1) room rest lh rh)
print-Reads (not_query l r) h =
    parens-Reads (not_query l r) l r not_word
      (λ rest. in_parens-append (print l) (print r) rest not_word) refl
      (λ room rest lh rh.
        not_expression l r (print-Reads l h.0) (print-Reads r h.1) room rest lh rh)

-- A factor that no operator follows is the whole expression.
pub parse_expression-factor :
    (room : ℕ) (q : Query) (tokens rest : List (List ℕ))
    → parse_factor room tokens ≡ parsed q rest
    → bytes_eq (current rest) and_word ≡ false
    → bytes_eq (current rest) not_word ≡ false
    → bytes_eq (current rest) or_word ≡ false
    → parse_expression (suc (suc room)) tokens ≡ parsed q rest
unfolding parse_expression parse_term or_loop and_loop
parse_expression-factor room q tokens rest h a n o = ground (arith, h, a, n, o)

no_words :
    (bytes_eq [] and_word ≡ false) × (bytes_eq [] not_word ≡ false) × (bytes_eq [] or_word ≡ false)
unfolding bytes_eq
no_words = (refl, refl, refl)

-- A printed query as an expression of its own.
pub parse_expression-print :
    (q : Query)
    → HasTerms q
    → 3 * height q < 48
    → parse_expression max_query_depth (print q) ≡ parsed q []
parse_expression-print q h k =
    parse_expression-factor 48 q (print q) []
      (ap (parse_factor 48) (sym (append-nil (print q))) ∙ print-Reads q h 48 [] k) no_words.0
      no_words.1 no_words.2
