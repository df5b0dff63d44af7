-- ===== src/Index/Segment.antt =====
-- index.go: `WriteSegment`, `initDict` and `FetchPostings`. A segment is the posting lists, the
-- dictionary of the terms with their offsets, and the dictionary's own offset. A file takes every
-- write whole.
pub mod Sorting
pub mod Rounds
pub mod RoundTrip
use ultimate_db.Prelude.{
  ℕ, zero, suc, ◌+◌, ◌-◌, ◌%◌, ◌^◌, Bool, true, false, Option, none, some, List, [], ◌∷◌, ◌++◌,
  length, take, drop, ltb, leb, nat_eq, if◌then◌else◌, Map, lookup, insert, bytes_key,
}
use ultimate_db.Bytes.{le_encode, le_decode}
use ultimate_db.Index.{MemIndex, postings_of}
use ultimate_db.Index.Varint.{put_uvarint, read_uvarint}
use ultimate_db.Index.Segment.Sorting.{sort_strings, sort_ids}

-- for t := range m.postings { terms = append(terms, t) }
abbrev pub keys : Map (List ℕ) (List ℕ) → List (List ℕ)
keys [] = []
keys ((t, l) ∷ m) = t ∷ keys m

-- The loop over the ids: `delta := id - lastID` on uint64, as a varint.
unfoldable pub put_deltas : ℕ → List ℕ → List ℕ
put_deltas last [] = []
put_deltas last (id ∷ ids) = put_uvarint ((id + 2 ^ 64 - last) % 2 ^ 64) ++ put_deltas id ids

-- One posting list: its length in four bytes, and the deltas of the sorted ids.
unfoldable pub put_postings : List ℕ → List ℕ
unfolding put_deltas
put_postings ids = le_encode 4 (length ids) ++ put_deltas 0 (sort_ids ids)

abbrev pub block : Map (List ℕ) (List ℕ) → List ℕ → List ℕ
block m t = put_postings (postings_of (lookup t m))

unfoldable pub put_lists : Map (List ℕ) (List ℕ) → List (List ℕ) → List ℕ
put_lists m [] = []
put_lists m (t ∷ terms) = block m t ++ put_lists m terms

-- The footer: each term's length, the term, and the offset its list was written at. The offsets
-- are those that the first loop collects in `termOffsets`.
unfoldable pub put_dict : Map (List ℕ) (List ℕ) → ℕ → List (List ℕ) → List ℕ
put_dict m off [] = []
put_dict m off (t ∷ terms) =
    le_encode 4 (length t)
    ++ (t ++ (le_encode 8 off ++ put_dict m (off + length (block m t)) terms))

-- `sort.Slice` sorts each list in place, so the index keeps the sorted lists.
abbrev pub sort_lists : Map (List ℕ) (List ℕ) → Map (List ℕ) (List ℕ)
sort_lists [] = []
sort_lists ((t, l) ∷ m) = (t, sort_ids l) ∷ sort_lists m

unfoldable pub segment_bytes : Map (List ℕ) (List ℕ) → List ℕ
unfolding put_postings put_lists put_dict
segment_bytes m =
    let terms = sort_strings (keys m) in
    let lists = put_lists m terms in lists ++ (put_dict m 0 terms ++ le_encode 8 (length lists))

-- The index afterwards, and the file's bytes; no file when `os.Create` failed.
unfoldable pub write_segment : Bool → MemIndex → MemIndex × Option (List ℕ)
unfolding segment_bytes
write_segment created m =
    if created
    then (record m { postings = sort_lists m.postings }, some (segment_bytes m.postings))
    else (m, none)

-- The loop of `initDict` on what the reader has left. A round that goes on takes twelve bytes at
-- least, so as many rounds as bytes are enough. `binary.Read` fails when it has too few bytes.
unfoldable pub read_dict : ℕ → List ℕ → Map (List ℕ) ℕ → Map (List ℕ) ℕ
read_dict zero bytes dict = dict
read_dict (suc fuel) bytes dict =
    let term_len = le_decode (take 4 bytes) in
    let term = take term_len (drop 4 bytes) in
    let rest = drop term_len (drop 4 bytes) in
    let more = read_dict fuel (drop 8 rest) (insert term (le_decode (take 8 rest)) dict) in
    if ltb (length bytes) 4
    then dict
    else if ltb (length term) term_len
    then dict
    else if ltb (length rest) 8
    then dict
    else more

unfoldable pub init_dict : List ℕ → Map (List ℕ) ℕ
unfolding read_dict
init_dict file =
    let sealed = length file - 8 in
    let dict_offset = le_decode (drop sealed file) in
    let bytes = drop dict_offset (take sealed file) in
    if ltb (length file) 8
    then []
    else if leb sealed dict_offset
    then []
    else read_dict (length bytes) bytes []

-- The loop over the deltas; `lastID + delta` wraps. It ends at the first varint it cannot read.
unfoldable pub read_deltas : ℕ → ℕ → List ℕ → List ℕ
read_deltas zero last bytes = []
read_deltas (suc count) last bytes = elim (read_uvarint bytes) [
  | none ↦ []
  | some (delta, rest) ↦ (last + delta) % 2 ^ 64 ∷ read_deltas count ((last + delta) % 2 ^ 64) rest
]

unfoldable pub read_postings : List ℕ → List ℕ
unfolding read_deltas
read_postings bytes =
    if ltb (length bytes) 4 then [] else read_deltas (le_decode (take 4 bytes)) 0 (drop 4 bytes)

-- `none` is the panic of `s.Data[offset:]` when the dictionary's offset is outside the file.
abbrev pub postings_at : List ℕ → Option ℕ → Option (List ℕ)
postings_at file none = some []
postings_at file (some offset) =
    if ltb (length file) offset then none else some (read_postings (drop offset file))

unfoldable pub fetch_postings : List ℕ → List ℕ → Option (List ℕ)
unfolding init_dict read_postings
fetch_postings file target = postings_at file (lookup target (init_dict file))
