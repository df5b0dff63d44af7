-- ===== src/Roaring/Stored.antt =====
-- roaring.go: a bitmap as bytes, `Serialize` and `Deserialize`.
use ultimate_db.Prelude.{
  ℕ, zero, suc, ◌^◌, ◌≤◌, ◌<◌, ◌≡◌, sym, ap, ◌∙◌, refl, Option, none, some, List, [], ◌∷◌, ◌++◌,
  append_assoc, append-nil, arith, length, length-append, take, drop, ltb, nat_eq_iff,
  if◌then◌else◌, Map, lookup, insert, nat_key, Unique, All,
}
use ultimate_db.Bytes.{
  le_encode, le_decode, length-le_encode, decode-encode, take-le_encode, drop-le_encode,
}
use ultimate_db.Roaring.{RoaringBitmap}

-- One uint16 after the other.
unfoldable pub put_words : List ℕ → List ℕ
put_words [] = []
put_words (v ∷ l) = le_encode 2 v ++ put_words l

unfoldable pub put_chunks : Map ℕ (List ℕ) → List ℕ
unfolding put_words
put_chunks [] = []
put_chunks ((k, l) ∷ m) = le_encode 8 k ++ (le_encode 4 (length l) ++ (put_words l ++ put_chunks m))

unfoldable pub serialize : RoaringBitmap → List ℕ
unfolding put_chunks
serialize r = le_encode 4 (length r.chunks) ++ put_chunks r.chunks

-- binary.Read into a variable that is 0: it stays 0 if there are too few bytes.
unfoldable pub read_word : ℕ → List ℕ → ℕ
read_word w bytes = if ltb (length bytes) w then 0 else le_decode (take w bytes)

unfoldable pub read_words : ℕ → List ℕ → List ℕ
unfolding read_word
read_words zero bytes = []
read_words (suc n) bytes = read_word 2 bytes ∷ read_words n (drop 2 bytes)

-- Where the reader stands after `n` words.
unfoldable pub after_words : ℕ → List ℕ → List ℕ
after_words zero bytes = bytes
after_words (suc n) bytes = after_words n (drop 2 bytes)

unfoldable pub read_chunks : ℕ → List ℕ → Map ℕ (List ℕ) → Map ℕ (List ℕ)
unfolding read_words after_words read_word
read_chunks zero bytes chunks = chunks
read_chunks (suc n) bytes chunks =
    let count = read_word 4 (drop 8 bytes) in
    let body = drop 4 (drop 8 bytes) in
    read_chunks n (after_words count body)
      (insert (read_word 8 bytes) (read_words count body) chunks)

-- The bitmap afterwards; none for the error of a count that cannot be read.
unfoldable pub deserialize : List ℕ → RoaringBitmap → Option RoaringBitmap
unfolding read_chunks
deserialize [] r = some r
deserialize (b ∷ bytes) r =
    if ltb (length (b ∷ bytes)) 4
    then none
    else some (record { chunks = read_chunks (read_word 4 (b ∷ bytes)) (drop 4 (b ∷ bytes)) [] })

read_word-le_encode :
    (w v : ℕ) (rest : List ℕ) → v < 256 ^ w → read_word w (le_encode w v ++ rest) ≡ v
unfolding read_word
read_word-le_encode w v rest h = ground (
  arith,
  length-append (le_encode w v) rest,
  length-le_encode w v,
  take-le_encode w v rest,
  decode-encode w v h,
)

abbrev Word : ℕ → Type 0
Word v = v < 65536

words_read :
    (l rest : List ℕ)
    → All Word l
    → (read_words (length l) (put_words l ++ rest) ≡ l)
      × (after_words (length l) (put_words l ++ rest) ≡ rest)
unfolding read_words after_words put_words
words_read [] rest h = (refl, refl)
words_read (v ∷ l) rest h =
    let same = append_assoc (le_encode 2 v) (put_words l) rest in
    let next = drop-le_encode 2 v (put_words l ++ rest) in
    let ih = words_read l rest h.1 in
    (
      ground (arith, same, next, ih, read_word-le_encode 2 v (put_words l ++ rest) h.0),
      ground (arith, same, next, ih),
    )

insert-new :
    (k : ℕ) (l : List ℕ) (m : Map ℕ (List ℕ))
    → lookup k m ≡ none
    → insert k l m ≡ m ++ ((k, l) ∷ [])
unfolding insert lookup
insert-new k l [] h = refl
insert-new k l ((j, v) ∷ m) h = ground (arith, h, insert-new k l m)

lookup-append_none :
    (k : ℕ) (a b : Map ℕ (List ℕ)) → lookup k a ≡ none → lookup k (a ++ b) ≡ lookup k b
unfolding lookup
lookup-append_none k [] b h = refl
lookup-append_none k ((j, v) ∷ a) b h = ground (arith, h, lookup-append_none k a b)

-- What the fields of a stored bitmap can hold: keys of 64 bits, values of 16, lengths of 32.
abbrev pub Storable : Map ℕ (List ℕ) → Type 0
Storable m = All (λ e. (e.0 < 2 ^ 64) × (length e.1 < 2 ^ 32) × All (λ v. v < 65536) e.1) m

-- No key of the second map is in the first.
abbrev Apart : Map ℕ (List ℕ) → Map ℕ (List ℕ) → Type 0
Apart a b = All (λ e. lookup e.0 a ≡ none) b

Apart-cons :
    (k : ℕ) (l : List ℕ) (res m : Map ℕ (List ℕ))
    → lookup k m ≡ none
    → Apart res m
    → Apart (res ++ ((k, l) ∷ [])) m
unfolding lookup
Apart-cons k l res [] new apart = tt
Apart-cons k l res ((j, v) ∷ m) new apart = (
  ground
      (arith, new, lookup-append_none j res ((k, l) ∷ []) apart.0, nat_eq_iff k j, nat_eq_iff j k),
  Apart-cons k l res m (ground (arith, new)) apart.1,
)

-- One chunk is read, and the reader stands behind it.
read_chunks-chunk :
    (n k : ℕ) (l rest : List ℕ) (res : Map ℕ (List ℕ))
    → k < 2 ^ 64
    → length l < 2 ^ 32
    → All Word l
    → read_chunks (suc n) (le_encode 8 k ++ (le_encode 4 (length l) ++ (put_words l ++ rest))) res
      ≡ read_chunks n rest (insert k l res)
unfolding read_chunks
read_chunks-chunk n k l rest res hk hl hw = ground (
  arith,
  read_word-le_encode 8 k (le_encode 4 (length l) ++ (put_words l ++ rest)) hk,
  drop-le_encode 8 k (le_encode 4 (length l) ++ (put_words l ++ rest)),
  read_word-le_encode 4 (length l) (put_words l ++ rest) hl,
  drop-le_encode 4 (length l) (put_words l ++ rest),
  words_read l rest hw,
)

read_chunks-put_chunks :
    (m res : Map ℕ (List ℕ))
    → Unique m
    → Apart res m
    → Storable m
    → read_chunks (length m) (put_chunks m) res ≡ res ++ m
unfolding put_chunks
read_chunks-put_chunks [] res u apart h = unfold read_chunks in sym (append-nil res)
read_chunks-put_chunks ((k, l) ∷ m) res u apart h =
    read_chunks-chunk (length m) k l (put_chunks m) res h.0.0 h.0.1 h.0.2
    ∙ ap (read_chunks (length m) (put_chunks m)) (insert-new k l res apart.0)
    ∙ read_chunks-put_chunks m (res ++ ((k, l) ∷ [])) u.1 (Apart-cons k l res m u.0 apart.1) h.1
    ∙ append_assoc res ((k, l) ∷ []) m

deserialize-long :
    (bytes : List ℕ) (old : RoaringBitmap)
    → 4 ≤ length bytes
    → deserialize bytes old
      ≡ some (record { chunks = read_chunks (read_word 4 bytes) (drop 4 bytes) [] })
unfolding deserialize
deserialize-long [] old h = absurd (omega (arith, h))
deserialize-long (b ∷ bytes) old h = ground (arith, h)

none-Apart : (m : Map ℕ (List ℕ)) → Apart [] m
unfolding lookup
none-Apart [] = tt
none-Apart ((k, l) ∷ m) = (refl, none-Apart m)

-- A bitmap is what its bytes are read as: `Deserialize` of `Serialize` gives it, whatever the
-- receiver was, if it has one chunk for a key and its fields fit.
pub deserialize-serialize :
    (r old : RoaringBitmap)
    → Unique r.chunks
    → Storable r.chunks
    → length r.chunks < 2 ^ 32
    → deserialize (serialize r) old ≡ some r
unfolding serialize
deserialize-serialize r old u h k =
    deserialize-long (serialize r) old (
      omega (
        arith,
        length-append (le_encode 4 (length r.chunks)) (put_chunks r.chunks),
        length-le_encode 4 (length r.chunks),
      ))
    ∙ ap (λ n. some (record { chunks = read_chunks n (drop 4 (serialize r)) [] }))
        (read_word-le_encode 4 (length r.chunks) (put_chunks r.chunks) k)
    ∙ ap (λ bytes. some (record { chunks = read_chunks (length r.chunks) bytes [] }))
        (drop-le_encode 4 (length r.chunks) (put_chunks r.chunks))
    ∙ ap (λ m. some (record { chunks = m }))
        (read_chunks-put_chunks r.chunks [] u (none-Apart r.chunks) h)
