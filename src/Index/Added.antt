-- ===== src/Index/Added.antt =====
-- What `Add` does to the posting lists.
use ultimate_db.Prelude.{
  ℕ, ◌≡◌, refl, ap, ◌∙◌, Bool, true, false, not, ◌&&◌, ◌||◌, List, [], ◌∷◌, ◌++◌, arith, nat_eq,
  if◌then◌else◌, Map, lookup, lookup-insert, insert, bytes_key, bytes_eq, bytes_eq_iff, Bool-cases,
  inl, inr,
}
use ultimate_db.Index.{
  MemIndex, new_mem_index, postings_of, has_term, tokenize, add_tokens, add_document,
}
use ultimate_db.Roaring.Chunk.{mem, mem-append}

-- The list `l`, with the document behind it if `b` says so.
abbrev pub appended : Bool → List ℕ → ℕ → List ℕ
appended b l doc = if b then l ++ (doc ∷ []) else l

add_tokens-postings :
    (doc : ℕ) (tokens seen : List (List ℕ)) (m : Map (List ℕ) (List ℕ)) (t : List ℕ)
    → postings_of (lookup t (add_tokens doc tokens seen m))
      ≡ appended (has_term t tokens && not (has_term t seen)) (postings_of (lookup t m)) doc
unfolding add_tokens has_term
add_tokens-postings doc [] seen m t = refl
add_tokens-postings doc (u ∷ tokens) seen m t = elim (Bool-cases (bytes_eq u t)) [
  | inl e ↦
      let same : u ≡ t = (bytes_eq_iff u t).0 e in
      ground (
        arith,
        e,
        ap (λ w. lookup w m) same,
        ap (λ w. has_term w seen) same,
        add_tokens-postings doc tokens seen m t,
        add_tokens-postings doc tokens (u ∷ seen)
            (insert u (postings_of (lookup u m) ++ (doc ∷ [])) m) t,
        lookup-insert u t (postings_of (lookup u m) ++ (doc ∷ [])) m,
      )
  | inr e ↦ ground (
    arith,
    e,
    add_tokens-postings doc tokens seen m t,
    add_tokens-postings doc tokens (u ∷ seen) (insert u (postings_of (lookup u m) ++ (doc ∷ [])) m)
        t,
    lookup-insert u t (postings_of (lookup u m) ++ (doc ∷ [])) m,
  )
]

-- `Add` puts the document behind the list of each term of the text, once however often the text has
-- the term, and leaves every other list as it was.
pub add_document-postings :
    (doc : ℕ) (text : List ℕ) (m : MemIndex) (t : List ℕ)
    → postings_of (lookup t (add_document doc text m).postings)
      ≡ appended (has_term t (tokenize text)) (postings_of (lookup t m.postings)) doc
unfolding add_document
add_document-postings doc text m t =
    ground (arith, add_tokens-postings doc (tokenize text) [] m.postings t, none_seen)
  where
    none_seen : has_term t [] ≡ false
    none_seen = unfold has_term in refl

-- The documents of `docs` added one after another, with their ids.
unfoldable pub index_all : List (ℕ × List ℕ) → MemIndex → MemIndex
unfolding add_document
index_all [] m = m
index_all ((doc, text) ∷ docs) m = index_all docs (add_document doc text m)

-- Some document with the id `y` has the term.
unfoldable pub has_document : List (ℕ × List ℕ) → ℕ → List ℕ → Bool
unfolding has_term tokenize
has_document [] y t = false
has_document ((doc, text) ∷ docs) y t =
    (nat_eq doc y && has_term t (tokenize text)) || has_document docs y t

mem-appended :
    (y doc : ℕ) (b : Bool) (l : List ℕ)
    → mem y (appended b l doc) ≡ ((nat_eq doc y && b) || mem y l)
unfolding mem
mem-appended y doc true l = ground (arith, mem-append y l (doc ∷ []))
mem-appended y doc false l = ground arith

mem-index_all :
    (docs : List (ℕ × List ℕ)) (m : MemIndex) (y : ℕ) (t : List ℕ)
    → mem y (postings_of (lookup t (index_all docs m).postings))
      ≡ (has_document docs y t || mem y (postings_of (lookup t m.postings)))
unfolding index_all has_document
mem-index_all [] m y t = refl
mem-index_all ((doc, text) ∷ docs) m y t =
    mem-index_all docs (add_document doc text m) y t
    ∙ ap (λ b. has_document docs y t || b)
        (ap (mem y) (add_document-postings doc text m t)
          ∙ mem-appended y doc (has_term t (tokenize text)) (postings_of (lookup t m.postings)))
    ∙ ground arith

-- A document is in a term's list if its text has the term.
pub mem-index_all_new :
    (docs : List (ℕ × List ℕ)) (y : ℕ) (t : List ℕ)
    → mem y (postings_of (lookup t (index_all docs new_mem_index).postings)) ≡ has_document docs y t
mem-index_all_new docs y t = mem-index_all docs new_mem_index y t ∙ nothing
  where
    nothing : (has_document docs y t || mem y (postings_of (lookup t []))) ≡ has_document docs y t
    nothing = unfold lookup in unfold mem in ground arith
