-- ===== src/Index/Segment/Rounds.antt =====
-- One posting list written and read, and one round of `initDict` on one entry of the footer.
use ultimate_db.Prelude.{
  ℕ, zero, suc, ◌+◌, ◌-◌, ◌%◌, ◌^◌, ◌<◌, ◌≡◌, ap, refl, ◌∙◌, List, [], ◌∷◌, ◌++◌, arith,
  append_assoc, length, length-append, take-append, drop-append, Map, insert, bytes_key, All,
}
use ultimate_db.Bytes.{le_encode, length-le_encode, decode-encode, take-le_encode, drop-le_encode}
use ultimate_db.Index.Varint.{put_uvarint, read_uvarint-put_uvarint}
use ultimate_db.Index.Segment.Sorting.{
  sort_ids, AscendsFrom, length-sort_ids, sort_ids-AscendsFrom, sort_ids-All,
}
use ultimate_db.Index.Segment.{
  put_deltas, put_postings, block, put_dict, read_dict, read_deltas, read_postings,
}

read_deltas-put_deltas :
    (last : ℕ) (ids rest : List ℕ)
    → AscendsFrom last ids
    → All (λ y. y < 2 ^ 64) ids
    → read_deltas (length ids) last (put_deltas last ids ++ rest) ≡ ids
unfolding read_deltas put_deltas
read_deltas-put_deltas last [] rest a b = refl
read_deltas-put_deltas last (id ∷ ids) rest a b = ground (
  arith,
  a.0,
  b.0,
  append_assoc (put_uvarint ((id + 2 ^ 64 - last) % 2 ^ 64)) (put_deltas id ids) rest,
  read_uvarint-put_uvarint ((id + 2 ^ 64 - last) % 2 ^ 64) (put_deltas id ids ++ rest),
  read_deltas-put_deltas id ids rest a.1 b.1,
)

-- A posting list at the front of the bytes is read back, in order.
pub read_postings-put_postings :
    (ids rest : List ℕ)
    → length ids < 2 ^ 32
    → All (λ y. y < 2 ^ 64) ids
    → read_postings (put_postings ids ++ rest) ≡ sort_ids ids
unfolding read_postings put_postings
read_postings-put_postings ids rest h b = ground (
  arith,
  append_assoc (le_encode 4 (length ids)) (put_deltas 0 (sort_ids ids)) rest,
  take-le_encode 4 (length ids) (put_deltas 0 (sort_ids ids) ++ rest),
  drop-le_encode 4 (length ids) (put_deltas 0 (sort_ids ids) ++ rest),
  decode-encode 4 (length ids) h,
  length-append (le_encode 4 (length ids)) (put_deltas 0 (sort_ids ids) ++ rest),
  length-le_encode 4 (length ids),
  length-sort_ids ids,
  read_deltas-put_deltas 0 (sort_ids ids) rest (sort_ids-AscendsFrom ids)
      (sort_ids-All (2 ^ 64) ids b),
)

-- One round of `initDict` reads one entry of the footer.
read_dict-entry :
    (fuel off : ℕ) (term more : List ℕ) (dict : Map (List ℕ) ℕ)
    → length term < 2 ^ 32
    → off < 2 ^ 64
    → read_dict (suc fuel) (le_encode 4 (length term) ++ (term ++ (le_encode 8 off ++ more))) dict
      ≡ read_dict fuel more (insert term off dict)
unfolding read_dict
read_dict-entry fuel off term more dict h k = ground (
  arith,
  take-le_encode 4 (length term) (term ++ (le_encode 8 off ++ more)),
  drop-le_encode 4 (length term) (term ++ (le_encode 8 off ++ more)),
  decode-encode 4 (length term) h,
  take-append term (le_encode 8 off ++ more),
  drop-append term (le_encode 8 off ++ more),
  take-le_encode 8 off more,
  drop-le_encode 8 off more,
  decode-encode 8 off k,
  length-append (le_encode 4 (length term)) (term ++ (le_encode 8 off ++ more)),
  length-append (le_encode 8 off) more,
  length-le_encode 4 (length term),
  length-le_encode 8 off,
)

pub read_dict-nil : (fuel : ℕ) (dict : Map (List ℕ) ℕ) → read_dict fuel [] dict ≡ dict
unfolding read_dict
read_dict-nil zero dict = refl
read_dict-nil (suc fuel) dict = refl

put_dict-cons :
    (m : Map (List ℕ) (List ℕ)) (off : ℕ) (u : List ℕ) (terms : List (List ℕ))
    → put_dict m off (u ∷ terms)
      ≡ le_encode 4 (length u)
        ++ (u ++ (le_encode 8 off ++ put_dict m (off + length (block m u)) terms))
unfolding put_dict
put_dict-cons m off u terms = refl

pub length-put_dict_cons :
    (m : Map (List ℕ) (List ℕ)) (off : ℕ) (u : List ℕ) (terms : List (List ℕ))
    → length (put_dict m off (u ∷ terms))
      ≡ 12 + length u + length (put_dict m (off + length (block m u)) terms)
length-put_dict_cons m off u terms = ground (
  arith,
  put_dict-cons m off u terms,
  length-append (le_encode 4 (length u))
      (u ++ (le_encode 8 off ++ put_dict m (off + length (block m u)) terms)),
  length-append u (le_encode 8 off ++ put_dict m (off + length (block m u)) terms),
  length-append (le_encode 8 off) (put_dict m (off + length (block m u)) terms),
  length-le_encode 4 (length u),
  length-le_encode 8 off,
)

pub read_dict-put_nil :
    (m : Map (List ℕ) (List ℕ)) (off fuel : ℕ) (dict : Map (List ℕ) ℕ)
    → read_dict fuel (put_dict m off []) dict ≡ dict
unfolding put_dict
read_dict-put_nil m off fuel dict = read_dict-nil fuel dict

pub read_dict-put_cons :
    (m : Map (List ℕ) (List ℕ)) (fuel off : ℕ) (u : List ℕ) (terms : List (List ℕ))
    (dict : Map (List ℕ) ℕ)
    → length u < 2 ^ 32
    → off < 2 ^ 64
    → read_dict (suc fuel) (put_dict m off (u ∷ terms)) dict
      ≡ read_dict fuel (put_dict m (off + length (block m u)) terms) (insert u off dict)
read_dict-put_cons m fuel off u terms dict h k =
    ap (λ bytes. read_dict (suc fuel) bytes dict) (put_dict-cons m off u terms)
    ∙ read_dict-entry fuel off u (put_dict m (off + length (block m u)) terms) dict h k
