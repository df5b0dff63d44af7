-- ===== src/Uql/Inserted.antt =====
-- The text of an INSERT statement, and its parse.
use ultimate_db.Prelude.{
  ℕ, ◌^◌, ◌≤◌, ◌<◌, ◌≡◌, refl, ap, ◌∙◌, true, false, List, [], ◌∷◌, ◌++◌, arith, lookup, bytes_eq,
}
use ultimate_db.Uql.{
  token, ◌is◌, iota, token_at, next_token, passed, left_of, is_whitespace, in_identifier, is_letter,
  is_digit, in_string, lookup_ident, keywords, token_number, token_string, token_insert,
  token_compressed, token_values,
}
use ultimate_db.Uql.Parser.{statement, insert_statement, inserted, parse_uql}
use ultimate_db.Uql.Numbers.{parse_uint}
use ultimate_db.Uql.Statements.{rest_after, nth_token, parse_uql-insert}
use ultimate_db.Uql.Digits.{
  all_of, NonEmpty, print_uint, passed-all, print_digits-digits, print_uint-NonEmpty,
  parse_uint-print_uint, next_token-number, next_token-string,
}

letters-identifier : (w : List ℕ) → all_of is_letter w ≡ true → all_of in_identifier w ≡ true
unfolding all_of in_identifier
letters-identifier [] h = refl
letters-identifier (c ∷ w) h = ground (arith, h, letters-identifier w)

space_ends : in_identifier b' ' ≡ false
unfolding in_identifier is_letter is_digit
space_ends = refl

letter_bound : (c : ℕ) → is_letter c ≡ true → 65 ≤ c
unfolding is_letter
letter_bound c h = ground (arith, h)

left_of-letter : (c : ℕ) (s : List ℕ) → is_letter c ≡ true → left_of is_whitespace (c ∷ s) ≡ c ∷ s
unfolding left_of
left_of-letter c s h = ground (arith, letter_bound c h)

token_at-letter :
    (c : ℕ) (s : List ℕ) → is_letter c ≡ true → (token_at (c ∷ s)).1 ≡ left_of in_identifier (c ∷ s)
unfolding token_at
token_at-letter c s h = ground (arith, h, letter_bound c h)

-- A table name of letters.
next_token-name :
    (w : List ℕ) (s : List ℕ)
    → NonEmpty w
    → all_of is_letter w ≡ true
    → (next_token (w ++ (b' ' ∷ s))).1 ≡ b' ' ∷ s
unfolding next_token bytes_eq all_of
next_token-name [] s n h = absurd (ground (arith, n))
next_token-name (d ∷ w) s n h =
    ap (λ r. (token_at r).1) (left_of-letter d (w ++ (b' ' ∷ s)) (ground (arith, h)))
    ∙ token_at-letter d (w ++ (b' ' ∷ s)) (ground (arith, h))
    ∙ (passed-all in_identifier (d ∷ w) b' ' s (letters-identifier (d ∷ w) h) space_ends).1

next_token-space : (s : List ℕ) → next_token (b' ' ∷ s) ≡ next_token s
unfolding next_token left_of
next_token-space s = refl

abbrev insert_word : List ℕ
insert_word = b'I' ∷ b'N' ∷ b'S' ∷ b'E' ∷ b'R' ∷ b'T' ∷ b' ' ∷ b'I' ∷ b'N' ∷ b'T' ∷ b'O' ∷ b' ' ∷ []

abbrev values_word : List ℕ
values_word = b' ' ∷ b'V' ∷ b'A' ∷ b'L' ∷ b'U' ∷ b'E' ∷ b'S' ∷ b' ' ∷ b'(' ∷ []

-- INSERT INTO table VALUES (id, 'value')
abbrev after_id : List ℕ → List ℕ
after_id value = b',' ∷ b' ' ∷ b'\'' ∷ (value ++ (b'\'' ∷ b')' ∷ []))

abbrev pub insert_text : List ℕ → ℕ → List ℕ → List ℕ
insert_text table id value =
    insert_word ++ (table ++ (values_word ++ (print_uint id ++ after_id value)))

module _ (table : List ℕ) (id : ℕ) (value : List ℕ) (named : NonEmpty table)
    (letters : all_of is_letter table ≡ true) (small : id < 2 ^ 64)
    (quoted : all_of in_string value ≡ true) where
  abbrev input : List ℕ
  input = insert_text table id value

  first_tokens :
      ((nth_token 0 input).kind ≡ token_insert)
      × ((nth_token 1 input).kind is token_compressed ≡ false)
      × (rest_after 2 input ≡ b' ' ∷ (table ++ (values_word ++ (print_uint id ++ after_id value))))
  unfolding rest_after next_token token_at left_of passed in_identifier is_letter is_digit
      lookup_ident keywords lookup bytes_eq iota
  first_tokens = (refl, refl, refl)

  -- The name is skipped whatever it is; VALUES and the parenthesis follow.
  past_table : rest_after 3 input ≡ values_word ++ (print_uint id ++ after_id value)
  unfolding rest_after
  past_table =
      ap (λ s. (next_token s).1) first_tokens.2
      ∙ ap (λ r. r.1)
          (next_token-space (table ++ (values_word ++ (print_uint id ++ after_id value))))
      ∙ next_token-name table _ named letters

  values_tokens :
      (rest : List ℕ)
      → ((next_token (values_word ++ rest)).0.kind ≡ token_values)
        × ((next_token (next_token (values_word ++ rest)).1).1 ≡ rest)
  unfolding next_token token_at left_of passed in_identifier is_letter is_digit lookup_ident
      keywords lookup bytes_eq
  values_tokens rest = (refl, refl)

  id_at : rest_after 5 input ≡ print_uint id ++ after_id value
  unfolding rest_after
  id_at =
      ap (λ s. (next_token (next_token s).1).1) past_table
      ∙ (values_tokens (print_uint id ++ after_id value)).1

  comma_ends : is_digit b',' ≡ false
  unfolding is_digit
  comma_ends = refl

  id_read :
      next_token (print_uint id ++ after_id value)
      ≡ (token token_number (print_uint id), after_id value)
  id_read =
      next_token-number (print_uint id) b',' _ (print_uint-NonEmpty id) (print_digits-digits 20 id)
        comma_ends

  id_token : nth_token 5 input ≡ token token_number (print_uint id)
  id_token = ap (λ s. (next_token s).0) id_at ∙ ap (λ r. r.0) id_read

  comma_read : (rest : List ℕ) → (next_token (b',' ∷ rest)).1 ≡ rest
  unfolding next_token token_at left_of
  comma_read rest = refl

  value_at : rest_after 7 input ≡ b' ' ∷ b'\'' ∷ (value ++ (b'\'' ∷ b')' ∷ []))
  unfolding rest_after
  value_at =
      ap (λ s. (next_token (next_token s).1).1) id_at
      ∙ ap (λ r. (next_token r.1).1) id_read
      ∙ comma_read _

  value_token : nth_token 7 input ≡ token token_string value
  value_token =
      ap (λ s. (next_token s).0) value_at
      ∙ ap (λ r. r.0)
          (next_token-space (b'\'' ∷ (value ++ (b'\'' ∷ b')' ∷ [])))
            ∙ next_token-string value (b')' ∷ []) quoted)

  values_at : (nth_token 3 input).kind ≡ token_values
  values_at =
      ap (λ s. (next_token s).0.kind) past_table
      ∙ (values_tokens (print_uint id ++ after_id value)).0

-- `INSERT INTO table VALUES (id, 'value')` parses to the insertion of the value under the id, for a
-- table name of letters, an id that fits a uint64, and a value without a quote or a NUL byte.
pub parse_uql-insert_text :
    (table : List ℕ) (id : ℕ) (value : List ℕ)
    → NonEmpty table
    → all_of is_letter table ≡ true
    → id < 2 ^ 64
    → all_of in_string value ≡ true
    → parse_uql (insert_text table id value) ≡ statement (insert_statement id value false)
parse_uql-insert_text table id value n l h q =
    parse_uql-insert (insert_text table id value) (first_tokens table id value n l h q).0
      (first_tokens table id value n l h q).1 (values_at table id value n l h q)
    ∙ ap
        (λ t.
          inserted (parse_uint t.literal) (nth_token 7 (insert_text table id value)).literal false)
        (id_token table id value n l h q)
    ∙ ap (λ t. inserted (parse_uint (print_uint id)) t.literal false)
        (value_token table id value n l h q)
    ∙ ap (λ o. inserted o value false) (parse_uint-print_uint id h)
