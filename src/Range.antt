-- ===== src/Range.antt =====
-- range.go's RangeCursor over DB.Scan, which is a parameter: what it visits for a prefix, in its
-- order, or none for an error. A callback that returns false ends the visit.
use mathlib.Core.Path.{subst}
use ultimate_db.Prelude.{
  ℕ, ◌≡◌, ◌∙◌, Bool, true, false, not, Option, none, some, List, [], ◌∷◌, arith, if◌then◌else◌, inl,
  inr, All, Bool-cases, Option-cases, length, nat_eq,
}
use ultimate_db.Bytes.{bytes_lt, has_prefix}

abbrev pub Visits : Type 0
Visits = List (List ℕ × List ℕ)

-- A nil key is none.
pub record RangeCursor : Type 0 where
  pub start_key : List ℕ
  pub end_key : Option (List ℕ)
  pub current_key : Option (List ℕ)
  pub exhausted : Bool

unfoldable pub new_range_cursor : List ℕ → Option (List ℕ) → RangeCursor
new_range_cursor from to = record {
  start_key = from;
  end_key = to;
  current_key = none;
  exhausted = false;
}

-- Not above the current key.
unfoldable pub is_behind : RangeCursor → List ℕ → Bool
unfolding bytes_lt
is_behind rc key = elim rc.current_key [ none ↦ false | some current ↦ not (bytes_lt current key) ]

unfoldable pub is_past : RangeCursor → List ℕ → Bool
unfolding bytes_lt
is_past rc key = elim rc.end_key [ none ↦ false | some last ↦ bytes_lt last key ]

-- The callback over what Scan visits: the record found, if any.
unfoldable pub find_next : RangeCursor → Visits → Option (List ℕ × List ℕ)
unfolding is_behind is_past
find_next rc [] = none
find_next rc ((key, val) ∷ visits) =
    let rest = find_next rc visits in
    if is_behind rc key then rest else if is_past rc key then none else some (key, val)

-- Next: `none` is an error of Scan, `(rc, none)` the end. An empty key is copied to nil, which ends
-- the cursor.
unfoldable pub range_next :
    (List ℕ → Option Visits) → RangeCursor → Option (RangeCursor × Option (List ℕ × List ℕ))
unfolding find_next
range_next scan rc = if rc.exhausted then some (rc, none) else elim (scan rc.start_key) [
  | none ↦ none
  | some visits ↦ elim (find_next rc visits) [
    | none ↦ some (record rc { exhausted = true }, none)
    | some (key, val) ↦
        if nat_eq (length key) 0
        then some (record rc { exhausted = true }, none)
        else some (record rc { start_key = key; current_key = some key }, some (key, val))
  ]
]

find_next-All {κ} :
    (P : List ℕ → Type κ) (rc : RangeCursor) (visits : Visits) (key val : List ℕ)
    → All (λ v. P v.0) visits
    → find_next rc visits ≡ some (key, val)
    → P key
unfolding find_next
find_next-All P rc [] key val h e = ground (arith, e)
find_next-All P rc ((k, v) ∷ visits) key val h e = elim (Bool-cases (is_behind rc k)) [
  | inl b ↦ find_next-All P rc visits key val h.1 (ground (arith, b, e))
  | inr b ↦ elim (Bool-cases (is_past rc k)) [
    | inl p ↦ ground (arith, b, p, e)
    | inr p ↦ subst P (ground (arith, b, p, e)) h.0
  ]
]

-- The cursor starts each Scan at the key it yielded last, and Scan takes its key as a prefix: every
-- key that the cursor yields after `current` begins with `current`.
pub range_next-has_prefix :
    (scan : List ℕ → Option Visits) (rc rc' : RangeCursor) (visits : Visits) (key val : List ℕ)
    → scan rc.start_key ≡ some visits
    → All (λ v. has_prefix v.0 rc.start_key ≡ true) visits
    → range_next scan rc ≡ some (rc', some (key, val))
    → (has_prefix key rc.start_key ≡ true) × (rc'.start_key ≡ key)
unfolding range_next
range_next-has_prefix scan rc rc' visits key val s h e = elim (Bool-cases rc.exhausted) [
  | inl done ↦ ground (arith, done, e)
  | inr going ↦ elim (Option-cases (find_next rc visits)) [
    | inl none_left ↦ ground (arith, s, going, none_left, e)
    | inr ((k, v), found) ↦ (
      find_next-All (λ k. has_prefix k rc.start_key ≡ true) rc visits key val h
          (found ∙ ground (arith, s, going, found, e)),
      ground (arith, s, going, found, e),
    )
  ]
]
