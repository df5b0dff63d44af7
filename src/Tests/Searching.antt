-- ===== src/Tests/Searching.antt =====
-- The index and its queries: two documents, their segment and a query.
use ultimate_db.Prelude.{
  ℕ, ◌≡◌, refl, true, false, some, List, [], ◌∷◌, ◌++◌, arith, length, ◌⊎◌, lookup, insert,
  bytes_eq, bytes_key, replicate, ◌<◌,
}
use ultimate_db.Bytes.{le_encode, bytes_lt}
use ultimate_db.Roaring.{RoaringBitmap}
use ultimate_db.Roaring.Sets.{member, IsValid}
use ultimate_db.Index.{
  MemIndex, new_mem_index, postings_of, has_term, tokenize, fields_func, clean, to_lower,
  add_tokens, add_document,
}
use ultimate_db.Index.Varint.{put_uvarint, read_uvarint, read_uvarint-put_uvarint}
use ultimate_db.Index.Added.{appended, index_all, has_document, add_document-postings}
use ultimate_db.Index.Segment.{segment_bytes, fetch_postings, put_lists, put_postings, put_deltas}
use ultimate_db.Index.Segment.Sorting.{sort_ids, sort_strings}
use ultimate_db.Index.Segment.RoundTrip.{Fits, fetch_postings-segment_bytes}
use ultimate_db.Query.{
  Query, term_query, not_query, ParseError, parsed, failed, too_nested, query_tokens, parse_query,
  is_space, parse_expression, or_loop, and_loop, factor_at, is_reserved, search, answered,
}
use ultimate_db.Query.Total.{parse_query_total, parse_query-nested}
use ultimate_db.Query.Printed.{print, height, is_term, all_term}
use ultimate_db.Query.Printed.Text.{spaced, parse_query-print}
use ultimate_db.Query.Answers.{describes, search_answers}

abbrev cat : List ℕ
cat = b'c' ∷ b'a' ∷ b't' ∷ []

abbrev dog : List ℕ
dog = b'd' ∷ b'o' ∷ b'g' ∷ []

-- "Cat, cat" under 300 and "dog cat" under 7.
abbrev documents : List (ℕ × List ℕ)
documents = (300, b'C' ∷ b'a' ∷ b't' ∷ b',' ∷ b' ' ∷ cat) ∷ (7, dog ++ (b' ' ∷ cat)) ∷ []

abbrev indexed : MemIndex
indexed = index_all documents new_mem_index

tokenize_test : tokenize (b'C' ∷ b'a' ∷ b't' ∷ b',' ∷ b' ' ∷ cat) ≡ cat ∷ cat ∷ []
unfolding tokenize fields_func clean to_lower
tokenize_test = refl

indexed_test : indexed.postings ≡ (cat, 300 ∷ 7 ∷ []) ∷ (dog, 7 ∷ []) ∷ []
unfolding index_all add_document add_tokens has_term tokenize fields_func clean to_lower lookup
    insert bytes_eq
indexed_test = refl

indexed-Fits : Fits indexed.postings
unfolding index_all add_document add_tokens has_term tokenize fields_func clean to_lower lookup
    insert bytes_eq put_lists put_postings put_deltas sort_strings bytes_lt sort_ids put_uvarint
    le_encode
indexed-Fits = record {
  entries = (
    (omega arith, omega arith, (omega arith, (omega arith, tt))),
    ((omega arith, omega arith, (omega arith, tt)), tt),
  );
  size = omega arith;
}

read_uvarint-put_uvarint_example : read_uvarint (put_uvarint 300 ++ (9 ∷ [])) ≡ some (300, 9 ∷ [])
read_uvarint-put_uvarint_example = read_uvarint-put_uvarint 300 (9 ∷ []) (omega arith)

-- Sorted, and by differences.
fetch_postings-segment_bytes_example :
    fetch_postings (segment_bytes indexed.postings) cat
    ≡ some (sort_ids (postings_of (lookup cat indexed.postings)))
fetch_postings-segment_bytes_example =
    fetch_postings-segment_bytes indexed.postings cat indexed-Fits

add_document-postings_test :
    postings_of (lookup dog (add_document 9 (dog ++ (b' ' ∷ dog)) indexed).postings)
    ≡ appended
        (has_term dog (tokenize (dog ++ (b' ' ∷ dog))))
        (postings_of (lookup dog indexed.postings))
        9
add_document-postings_test = add_document-postings 9 (dog ++ (b' ' ∷ dog)) indexed dog

-- (cat NOT dog)
abbrev cat_not_dog : Query
cat_not_dog = not_query (term_query cat) (term_query dog)

abbrev cat_not_dog_text : List ℕ
cat_not_dog_text = spaced (print cat_not_dog)

parse_query_total_test :
    ((e : ParseError) × (parse_query (cat ++ (b' ' ∷ dog)) ≡ failed e))
    ⊎ ((q : Query) × (rest : List (List ℕ)) × (parse_query (cat ++ (b' ' ∷ dog)) ≡ parsed q rest)
        × (length rest < length (query_tokens (cat ++ (b' ' ∷ dog)))))
parse_query_total_test = parse_query_total (cat ++ (b' ' ∷ dog))

-- What follows the first operand without an operator is dropped.
dropped_test : parse_expression 3 (cat ∷ dog ∷ []) ≡ parsed (term_query cat) (dog ∷ [])
unfolding parse_expression or_loop and_loop factor_at is_reserved tokenize fields_func clean
    to_lower bytes_eq
dropped_test = refl

parse_query-print_example : parse_query cat_not_dog_text ≡ parsed cat_not_dog []
unfolding print is_term all_term height
parse_query-print_example = parse_query-print cat_not_dog (refl, refl) (omega arith)

abbrev many_parens : List ℕ
many_parens = replicate 17 b'('

parse_query-nested_test : parse_query many_parens ≡ failed too_nested
unfolding query_tokens fields_func is_space
parse_query-nested_test = parse_query-nested many_parens [] refl

search_answers_example :
    (bm : RoaringBitmap) × (search (segment_bytes indexed.postings) cat_not_dog_text ≡ answered bm)
    × IsValid bm
    × ((y : ℕ) → member y bm ≡ describes documents cat_not_dog y)
unfolding print is_term all_term height
search_answers_example =
    search_answers documents cat_not_dog_text cat_not_dog [] indexed-Fits
      (parse_query-print cat_not_dog (refl, refl) (omega arith))

describes_test :
    (describes documents cat_not_dog 300 ≡ true) × (describes documents cat_not_dog 7 ≡ false)
unfolding describes has_document has_term tokenize fields_func clean to_lower bytes_eq
describes_test = (refl, refl)
