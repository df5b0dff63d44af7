-- ===== src/Index/Segment/RoundTrip.antt =====
-- The bytes of index.go's `WriteSegment` as `FetchPostings` reads them.
use mathlib.Core.Path.{subst}
use ultimate_db.Prelude.{
  ℕ, zero, suc, ◌+◌, ◌-◌, ◌^◌, ◌≤◌, ◌<◌, ◌≡◌, sym, ap, refl, ◌∙◌, true, false, Option, none, some,
  List, [], ◌∷◌, ◌++◌, arith, append_assoc, append-nil, length, drop, length-append, take-append,
  drop-append, ltb, leb, if◌then◌else◌, Map, lookup, insert, lookup-insert, bytes_key, bytes_eq,
  bytes_eq_iff, All, Bool-cases, split_if, inl, inr,
}
use ultimate_db.Bytes.{le_encode, le_decode, length-le_encode, decode-encode}
use ultimate_db.Index.{postings_of, has_term}
use ultimate_db.Index.Segment.Sorting.{
  sort_strings, sort_ids, has_term-sort_strings, sort_strings-All,
}
use ultimate_db.Index.Segment.{
  keys, block, put_lists, put_dict, segment_bytes, read_dict, init_dict, postings_at,
  fetch_postings,
}
use ultimate_db.Index.Segment.Rounds.{
  read_postings-put_postings, length-put_dict_cons, read_dict-nil, read_dict-put_nil,
  read_dict-put_cons,
}

-- What a segment's fields can hold: lengths of 32 bits, ids and offsets of 64.
pub record Fits (m : Map (List ℕ) (List ℕ)) : Type 0 where
  pub entries :
      All (λ e. (length e.0 < 2 ^ 32) × (length e.1 < 2 ^ 32) × All (λ y. y < 2 ^ 64) e.1) m
  pub size : length (put_lists m (sort_strings (keys m))) < 2 ^ 64

abbrev Fitting : List ℕ → Type 0
Fitting l = (length l < 2 ^ 32) × All (λ y. y < 2 ^ 64) l

lookup-Fitting :
    (m : Map (List ℕ) (List ℕ)) (t : List ℕ)
    → All (λ e. (length e.0 < 2 ^ 32) × (length e.1 < 2 ^ 32) × All (λ y. y < 2 ^ 64) e.1) m
    → Fitting (postings_of (lookup t m))
unfolding lookup
lookup-Fitting [] t h = (omega arith, tt)
lookup-Fitting ((u, l) ∷ m) t h =
    split_if (λ o. Fitting (postings_of o)) (bytes_eq u t) _ _ (λ e. (h.0.1, h.0.2))
      (λ e. lookup-Fitting m t h.1)

short_keys :
    (m : Map (List ℕ) (List ℕ))
    → All (λ e. (length e.0 < 2 ^ 32) × (length e.1 < 2 ^ 32) × All (λ y. y < 2 ^ 64) e.1) m
    → All (λ t. length t < 2 ^ 32) (keys m)
short_keys [] h = tt
short_keys ((u, l) ∷ m) h = (h.0.0, short_keys m h.1)

module _ (m : Map (List ℕ) (List ℕ)) (file : List ℕ) where
  -- The list of `t` stands in the file at `off`.
  abbrev Located : List ℕ → ℕ → Type 0
  Located t off = (rest : List ℕ) × (drop off file ≡ block m t ++ rest) × (off ≤ length file)

  -- What the dictionary read from the footer of `terms` has at `t`.
  abbrev Entry : List ℕ → List (List ℕ) → Option ℕ → Option ℕ → Type 0
  Entry t terms old found =
      (has_term t terms ≡ false → found ≡ old)
      × (has_term t terms ≡ true → (off : ℕ) × (found ≡ some off) × Located t off)

  Entry-cons :
      (t u : List ℕ) (terms : List (List ℕ)) (old found : Option ℕ) (off : ℕ)
      → Located u off
      → Entry t terms (if bytes_eq u t then some off else old) found
      → Entry t (u ∷ terms) old found
  unfolding has_term
  Entry-cons t u terms old found off here tail = elim (Bool-cases (has_term t terms)) [
    | inl e ↦ (λ f. ground (arith, e, f), λ f. tail.1 e)
    | inr e ↦ elim (Bool-cases (bytes_eq u t)) [
      | inl eq ↦ (
        λ f. ground (arith, eq, f),
        λ f. (
          off,
          ground (arith, eq, tail.0 e),
          subst (λ v. Located v off) ((bytes_eq_iff u t).0 eq) here,
        ),
      )
      | inr ne ↦ (λ f. ground (arith, ne, tail.0 e), λ f. ground (arith, ne, e, f))
    ]
  ]

  -- The rounds on a whole footer. `pre` is what stands before the lists of its terms.
  read_dict-put_dict :
      (terms : List (List ℕ)) (off : ℕ) (pre tail : List ℕ) (fuel : ℕ) (dict : Map (List ℕ) ℕ)
      (t : List ℕ)
      → off ≡ length pre
      → file ≡ pre ++ (put_lists m terms ++ tail)
      → off + length (put_lists m terms) < 2 ^ 64
      → All (λ u. length u < 2 ^ 32) terms
      → length (put_dict m off terms) ≤ fuel
      → Entry t terms (lookup t dict) (lookup t (read_dict fuel (put_dict m off terms) dict))
  read_dict-put_dict [] off pre tail fuel dict t at_off located small short enough = (
    λ e. ap (λ d. lookup t d) (read_dict-put_nil m off fuel dict),
    λ e. unfold has_term in absurd (ground (arith, e)),
  )
  read_dict-put_dict (u ∷ terms) off pre tail zero dict t at_off located small short enough =
      absurd (ground (arith, enough, length-put_dict_cons m off u terms))
  read_dict-put_dict (u ∷ terms) off pre tail (suc fuel) dict t at_off located small short enough =
      Entry-cons t u terms (lookup t dict) _ off here (
        subst (λ d. Entry t terms (if bytes_eq u t then some off else lookup t dict) (lookup t d))
          (sym (read_dict-put_cons m fuel off u terms dict short.0 (ground (arith, small))))
          (subst
            (λ o. Entry t terms o (
              lookup t
                (read_dict fuel (put_dict m (off + length (block m u)) terms) (insert u off dict))))
            (lookup-insert u t off dict)
            (read_dict-put_dict terms (off + length (block m u)) (pre ++ block m u) tail fuel
              (insert u off dict) t (ground (arith, at_off, length-append pre (block m u)))
              (ground (arith, located, after)) (ground (arith, small, size)) short.1
              (ground (arith, enough, length-put_dict_cons m off u terms)))))
    where
      split_lists : put_lists m (u ∷ terms) ≡ block m u ++ put_lists m terms
      split_lists = unfold put_lists in refl

      size : length (put_lists m (u ∷ terms)) ≡ length (block m u) + length (put_lists m terms)
      size = ground (arith, split_lists, length-append (block m u) (put_lists m terms))

      after :
          pre ++ (put_lists m (u ∷ terms) ++ tail) ≡ pre ++ block m u ++ (put_lists m terms ++ tail)
      after = ground (
        arith,
        split_lists,
        append_assoc (block m u) (put_lists m terms) tail,
        append_assoc pre (block m u) (put_lists m terms ++ tail),
      )

      here : Located u off
      here = (
        put_lists m terms ++ tail,
        ground (
          arith,
          at_off,
          located,
          split_lists,
          append_assoc (block m u) (put_lists m terms) tail,
          drop-append pre (put_lists m (u ∷ terms) ++ tail),
        ),
        ground (arith, at_off, located, length-append pre (put_lists m (u ∷ terms) ++ tail)),
      )

has_term-keys :
    (t : List ℕ) (m : Map (List ℕ) (List ℕ)) → has_term t (keys m) ≡ false → lookup t m ≡ none
unfolding has_term lookup
has_term-keys t [] h = refl
has_term-keys t ((u, l) ∷ m) h = ground (arith, h, has_term-keys t m)

init_dict-append :
    (body seal : List ℕ)
    → length seal ≡ 8
    → init_dict (body ++ seal) ≡ (
        let bytes = drop (le_decode seal) body in
        if leb (length body) (le_decode seal) then [] else read_dict (length bytes) bytes [])
unfolding init_dict
init_dict-append body seal h =
    ground (arith, sealed, long, take-append body seal, drop-append body seal)
  where
    sealed : length (body ++ seal) - 8 ≡ length body
    sealed = omega (arith, h, length-append body seal)

    long : ltb (length (body ++ seal)) 8 ≡ false
    long = ground (arith, h, length-append body seal)

-- `initDict` finds the footer of a sealed segment.
init_dict-sealed :
    (lists dict : List ℕ)
    → length lists < 2 ^ 64
    → init_dict (lists ++ (dict ++ le_encode 8 (length lists))) ≡ read_dict (length dict) dict []
init_dict-sealed lists dict h =
    ap init_dict (sym (append_assoc lists dict (le_encode 8 (length lists))))
    ∙ init_dict-append (lists ++ dict) (le_encode 8 (length lists))
        (length-le_encode 8 (length lists))
    ∙ found dict
  where
    found :
        (dict : List ℕ)
        → (let bytes = drop (le_decode (le_encode 8 (length lists))) (lists ++ dict) in
            if leb (length (lists ++ dict)) (le_decode (le_encode 8 (length lists)))
            then []
            else read_dict (length bytes) bytes [])
          ≡ read_dict (length dict) dict []
    found [] =
        ground (arith, decode-encode 8 (length lists) h, append-nil lists, read_dict-nil 0 [])
    found (b ∷ bytes) = ground (
      arith,
      decode-encode 8 (length lists) h,
      drop-append lists (b ∷ bytes),
      length-append lists (b ∷ bytes),
    )

module _ (m : Map (List ℕ) (List ℕ)) (fits : Fits m) where
  abbrev terms : List (List ℕ)
  terms = sort_strings (keys m)

  abbrev footer : List ℕ
  footer = put_dict m 0 terms

  segment-layout :
      segment_bytes m ≡ put_lists m terms ++ (footer ++ le_encode 8 (length (put_lists m terms)))
  unfolding segment_bytes
  segment-layout = refl

  dictionary : init_dict (segment_bytes m) ≡ read_dict (length footer) footer []
  dictionary = ap init_dict segment-layout ∙ init_dict-sealed (put_lists m terms) footer fits.size

  entry :
      (t : List ℕ)
      → Entry m
          (segment_bytes m)
          t
          terms
          (lookup t [])
          (lookup t (read_dict (length footer) footer []))
  entry t =
      read_dict-put_dict m (segment_bytes m) terms 0 []
        (footer ++ le_encode 8 (length (put_lists m terms))) (length footer) [] t refl
        segment-layout (ground (arith, fits.size))
        (sort_strings-All (λ t. length t < 2 ^ 32) (keys m) (short_keys m fits.entries))
        (omega arith)

  postings_at_found :
      (t : List ℕ) (off : ℕ)
      → Located m (segment_bytes m) t off
      → postings_at (segment_bytes m) (some off) ≡ some (sort_ids (postings_of (lookup t m)))
  postings_at_found t off (rest, here, inside) = ground (
    arith,
    inside,
    here,
    read_postings-put_postings (postings_of (lookup t m)) rest (lookup-Fitting m t fits.entries).0
        (lookup-Fitting m t fits.entries).1,
  )

  absent : (t : List ℕ) → has_term t terms ≡ false → lookup t m ≡ none
  absent t e = has_term-keys t m (sym (has_term-sort_strings t (keys m)) ∙ e)

nothing_at : (t : List ℕ) → lookup {V = ℕ} t [] ≡ none
unfolding lookup
nothing_at t = refl

sort_ids-nil : sort_ids [] ≡ []
unfolding sort_ids
sort_ids-nil = refl

-- On a map that fits, the searcher finds in the file that `WriteSegment` writes for any term the
-- sorted list of its ids, and none for a term that the index does not have.
pub fetch_postings-segment_bytes :
    (m : Map (List ℕ) (List ℕ)) (t : List ℕ)
    → Fits m
    → fetch_postings (segment_bytes m) t ≡ some (sort_ids (postings_of (lookup t m)))
unfolding fetch_postings
fetch_postings-segment_bytes m t fits =
    ap (λ d. postings_at (segment_bytes m) (lookup t d)) (dictionary m fits)
    ∙ elim (Bool-cases (has_term t (terms m fits))) [
      | inl e ↦
          let (off, found, here) = (entry m fits t).1 e in
          ap (postings_at (segment_bytes m)) found ∙ postings_at_found m fits t off here
      | inr e ↦
          ap (postings_at (segment_bytes m)) ((entry m fits t).0 e ∙ nothing_at t)
          ∙ ap some (sym (ap (λ o. sort_ids (postings_of o)) (absent m fits t e) ∙ sort_ids-nil))
    ]
