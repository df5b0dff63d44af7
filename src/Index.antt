-- ===== src/Index.antt =====
-- index.go: the tokenizer, the memory index, the segment it is written to and the searcher that
-- reads one. A text is a list of code points; a term has ASCII letters and digits only, so that its
-- code points are its bytes.
pub mod Varint
pub mod Segment
pub mod Added
use ultimate_db.Prelude.{
  ℕ, zero, suc, ◌+◌, ◌-◌, ◌%◌, ◌^◌, Bool, true, false, ◌||◌, ◌&&◌, not, Option, none, some, List,
  [], ◌∷◌, ◌++◌, length, ltb, leb, nat_eq, if◌then◌else◌, Map, lookup, insert, bytes_eq, bytes_key,
}

abbrev between : ℕ → ℕ → ℕ → Bool
between lo hi c = leb lo c && leb c hi

-- strings.ToLower, rune by rune. Of the code points that are not ASCII, the Kelvin sign and the
-- dotted capital I have an ASCII lower case. What the others become is not ASCII, and a separator.
unfoldable pub to_lower : ℕ → ℕ
to_lower c =
    if between 65 90 c
    then c + 32
    else if nat_eq c 8490
    then 107
    else if nat_eq c 304
    then 105
    else c

-- The closure `clean`: what separates tokens.
unfoldable pub clean : ℕ → Bool
clean c = not (between 97 122 c || between 65 90 c || between 48 57 c)

-- strings.FieldsFunc: the runs of code points that do not separate; `word` is the run being read.
abbrev pub end_word : List ℕ → List (List ℕ) → List (List ℕ)
end_word [] words = words
end_word (c ∷ word) words = (c ∷ word) ∷ words

unfoldable pub fields_func : (ℕ → Bool) → List ℕ → List ℕ → List (List ℕ)
fields_func sep word [] = end_word word []
fields_func sep word (c ∷ text) =
    let ended = fields_func sep [] text in
    let more = fields_func sep (word ++ (c ∷ [])) text in
    if sep c then end_word word ended else more

abbrev pub map_runes : (ℕ → ℕ) → List ℕ → List ℕ
map_runes f [] = []
map_runes f (c ∷ text) = f c ∷ map_runes f text

unfoldable pub tokenize : List ℕ → List (List ℕ)
unfolding fields_func clean to_lower
tokenize text = fields_func clean [] (map_runes to_lower text)

pub record MemIndex : Type 0 where
  pub postings : Map (List ℕ) (List ℕ)
  pub docs_count : ℕ

abbrev pub new_mem_index : MemIndex
new_mem_index = record { postings = []; docs_count = 0 }

-- m.postings[t], where a missing term reads as the nil slice
abbrev pub postings_of : Option (List ℕ) → List ℕ
postings_of none = []
postings_of (some l) = l

-- seen[t], for the tokens seen before
unfoldable pub has_term : List ℕ → List (List ℕ) → Bool
has_term t [] = false
has_term t (u ∷ terms) = bytes_eq u t || has_term t terms

-- The loop of `Add`.
unfoldable pub add_tokens :
    ℕ → List (List ℕ) → List (List ℕ) → Map (List ℕ) (List ℕ) → Map (List ℕ) (List ℕ)
unfolding has_term
add_tokens doc [] seen m = m
add_tokens doc (t ∷ tokens) seen m =
    let skipped = add_tokens doc tokens seen m in
    let appended =
      add_tokens doc tokens (t ∷ seen) (insert t (postings_of (lookup t m) ++ (doc ∷ [])) m) in
    if has_term t seen then skipped else appended

unfoldable pub add_document : ℕ → List ℕ → MemIndex → MemIndex
unfolding tokenize add_tokens
add_document doc text m = record {
  postings = add_tokens doc (tokenize text) [] m.postings;
  docs_count = (m.docs_count + 1) % 2 ^ 64;
}
