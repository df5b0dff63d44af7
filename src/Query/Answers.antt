-- ===== src/Query/Answers.antt =====
-- What a query finds in a segment: the documents that it describes.
use ultimate_db.Prelude.{
  ℕ, ◌≡◌, ap, ◌∙◌, refl, Bool, false, not, ◌&&◌, ◌||◌, Option, some, List, [], ◌∷◌, arith, lookup,
  bytes_key,
}
use ultimate_db.Roaring.{
  RoaringBitmap, new_roaring_bitmap, add, roaring_intersect, roaring_union, roaring_difference,
}
use ultimate_db.Roaring.Chunk.{mem}
use ultimate_db.Roaring.Sets.{member, IsValid, new-IsValid, add_set, set_operations}
use ultimate_db.Roaring.Valid.{set_operations-IsValid}
use ultimate_db.Index.{new_mem_index, postings_of}
use ultimate_db.Index.Added.{index_all, has_document, mem-index_all_new}
use ultimate_db.Index.Segment.{segment_bytes, fetch_postings}
use ultimate_db.Index.Segment.Sorting.{sort_ids, mem-sort_ids}
use ultimate_db.Index.Segment.RoundTrip.{Fits, fetch_postings-segment_bytes}
use ultimate_db.Query.{
  Query, term_query, and_query, or_query, not_query, parsed, parse_query, add_all, of_ids, execute,
  answered, answer_of, answer_at, search,
}

-- The document `y` is one that the query describes: its text has the term, or the two sides'
-- answers are combined.
unfoldable pub describes : List (ℕ × List ℕ) → Query → ℕ → Bool
unfolding has_document
describes docs (term_query t) y = has_document docs y t
describes docs (and_query l r) y = describes docs l y && describes docs r y
describes docs (or_query l r) y = describes docs l y || describes docs r y
describes docs (not_query l r) y = describes docs l y && not (describes docs r y)

add_all_set :
    (ids : List ℕ) (bm : RoaringBitmap)
    → IsValid bm
    → IsValid (add_all ids bm) × ((y : ℕ) → member y (add_all ids bm) ≡ (mem y ids || member y bm))
unfolding mem
add_all_set [] bm h = (h, λ y. refl)
add_all_set (id ∷ ids) bm h =
    let (valid, members) = add_set id bm h in
    let (valid_all, members_all) = add_all_set ids (add id bm) valid in
    (valid_all, λ y. ground (arith, members_all y, members y))

new-member : (y : ℕ) → member y new_roaring_bitmap ≡ false
unfolding member mem lookup
new-member y = refl

-- Execution returns a valid bitmap of the values of which `found` holds.
abbrev Finds : Option RoaringBitmap → (ℕ → Bool) → Type 0
Finds result found =
    (bm : RoaringBitmap) × (result ≡ some bm) × IsValid bm × ((y : ℕ) → member y bm ≡ found y)

module _ (docs : List (ℕ × List ℕ)) (fits : Fits (index_all docs new_mem_index).postings) where
  abbrev file : List ℕ
  file = segment_bytes (index_all docs new_mem_index).postings

  term-Finds : (t : List ℕ) → Finds (of_ids (fetch_postings file t)) (λ y. has_document docs y t)
  term-Finds t =
      let ids : List ℕ =
        sort_ids (postings_of (lookup t (index_all docs new_mem_index).postings)) in
      let (valid, members) = add_all_set ids new_roaring_bitmap new-IsValid in
      (
        add_all ids new_roaring_bitmap,
        ap of_ids (fetch_postings-segment_bytes (index_all docs new_mem_index).postings t fits),
        valid,
        λ y. ground (
          arith,
          members y,
          new-member y,
          mem-sort_ids y (postings_of (lookup t (index_all docs new_mem_index).postings)),
          mem-index_all_new docs y t,
        ),
      )

  execute-Finds : (q : Query) → Finds (execute file q) (describes docs q)
  unfolding execute describes
  execute-Finds (term_query t) = term-Finds t
  execute-Finds (and_query l r) =
      let (a, ra, va, ma) = execute-Finds l in
      let (b, rb, vb, mb) = execute-Finds r in
      (
        roaring_intersect a b,
        ground (arith, ra, rb),
        (set_operations-IsValid a b va vb).0,
        λ y. ground (arith, ma y, mb y, set_operations a b y va vb),
      )
  execute-Finds (or_query l r) =
      let (a, ra, va, ma) = execute-Finds l in
      let (b, rb, vb, mb) = execute-Finds r in
      (
        roaring_union a b,
        ground (arith, ra, rb),
        (set_operations-IsValid a b va vb).1,
        λ y. ground (arith, ma y, mb y, set_operations a b y va vb),
      )
  execute-Finds (not_query l r) =
      let (a, ra, va, ma) = execute-Finds l in
      let (b, rb, vb, mb) = execute-Finds r in
      (
        roaring_difference a b,
        ground (arith, ra, rb),
        (set_operations-IsValid a b va vb).2,
        λ y. ground (arith, ma y, mb y, set_operations a b y va vb),
      )

-- A searcher on the segment written from an index of documents answers a query that parses with a
-- bitmap of just the documents that the query describes; the segment's fields can hold the index.
pub search_answers :
    (docs : List (ℕ × List ℕ)) (input : List ℕ) (q : Query) (rest : List (List ℕ))
    → Fits (index_all docs new_mem_index).postings
    → parse_query input ≡ parsed q rest
    → (bm : RoaringBitmap) × (search (segment_bytes (index_all docs new_mem_index).postings) input
        ≡ answered bm)
      × IsValid bm
      × ((y : ℕ) → member y bm ≡ describes docs q y)
unfolding search
search_answers docs input q rest fits parses =
    let (bm, returns, valid, members) = execute-Finds docs fits q in
    (bm, ap (answer_at (file docs fits)) parses ∙ ap answer_of returns, valid, members)
