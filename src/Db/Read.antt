-- ===== src/Db/Read.antt =====
-- `Read` of db.go: the record of the highest slot, among those with the key that are visible.
use ultimate_db.Prelude.{
  ℕ, suc, ◌<◌, ◌≡◌, refl, ◌∙◌, ap, Bool, true, not, ◌&&◌, ◌||◌, Option, none, some, List, [], ◌∷◌,
  ◌++◌, arith, ltb, leb, nat_eq, if◌then◌else◌, bytes_eq, Option-cases, inl, inr,
}
use ultimate_db.Memory.{Memory}
use ultimate_db.Page.Record.{Record}
use ultimate_db.Page.Contents.{Holds}
use ultimate_db.Page.Loop.{each_slot, visit_all, each_slot-Holds}
use ultimate_db.Db.{
  Result, ok, err, panic, key_not_found, ActiveTxns, is_active, is_record_visible, not_expired,
}

pub record ReadState : Type 0 where
  pub highest_slot : Option ℕ
  pub highest_txn : ℕ
  pub latest : Option (List ℕ)

-- A reader sees the records of finished transactions and its own.
unfoldable pub visible : ActiveTxns → ℕ → Record → Bool
unfolding is_active is_record_visible
visible active reader r =
    let act = is_active active r.txn_id in
    is_record_visible r.txn_id reader act && (not act || nat_eq r.txn_id reader)

-- int(i) > highestSlot || (int(i) == highestSlot && recordTxnID >= highestTxnID)
unfoldable pub better : ℕ → ℕ → ReadState → Bool
better i txn s = elim s.highest_slot [
  | none ↦ true
  | some j ↦ ltb j i || (nat_eq i j && leb s.highest_txn txn)
]

unfoldable pub read_body : ℕ → ActiveTxns → ℕ → List ℕ → ℕ → Record → ReadState → ReadState
unfolding better not_expired
read_body now active reader key i r s =
    if bytes_eq r.key key && visible active reader r
    then (if better i r.txn_id s
        then record {
          highest_slot = some i;
          highest_txn = r.txn_id;
          latest = if not_expired r.expires_at now then some r.value else none;
        }
        else s)
    else s

abbrev pub start : ReadState
start = record { highest_slot = none; highest_txn = 0; latest = none }

unfoldable pub finish : Option ReadState → Result (List ℕ)
finish none = panic
finish (some s) = elim s.latest [ none ↦ err key_not_found | some v ↦ ok v ]

unfoldable pub read : ℕ → Memory → ActiveTxns → ℕ → List ℕ → Result (List ℕ)
unfolding each_slot finish read_body
read now m active reader key = finish (each_slot m (read_body now active reader key) start)

-- The specification: the last record of the page with this key that the reader may see.
unfoldable pub last_visible : ActiveTxns → ℕ → List ℕ → List Record → Option Record
last_visible active reader key [] = none
last_visible active reader key (r ∷ rs) = elim (last_visible active reader key rs) [
  | some s ↦ some s
  | none ↦ if bytes_eq r.key key && visible active reader r then some r else none
]

-- Its value, unless it has expired.
unfoldable pub live_value : ℕ → Option Record → Option (List ℕ)
unfolding not_expired
live_value now none = none
live_value now (some r) = if not_expired r.expires_at now then some r.value else none

unfoldable pub reply : Option (List ℕ) → Result (List ℕ)
reply none = err key_not_found
reply (some v) = ok v

-- What `Read` returns on a page that holds `rs`.
abbrev pub read_spec : ℕ → ActiveTxns → ℕ → List ℕ → List Record → Result (List ℕ)
read_spec now active reader key rs = reply (live_value now (last_visible active reader key rs))

abbrev pub Below : ℕ → ReadState → Type 0
Below i s = (j : ℕ) → s.highest_slot ≡ some j → j < i

module _ (now : ℕ) (active : ActiveTxns) (reader : ℕ) (key : List ℕ) where
  better-Below : (i txn : ℕ) (s : ReadState) → Below i s → better i txn s ≡ true
  unfolding better
  better-Below i txn s h = elim (Option-cases s.highest_slot) [
    | inl e ↦ ground arith
    | inr (j, e) ↦ ground (arith, h j e)
  ]

  latest-read_body :
      (i : ℕ) (r : Record) (s : ReadState)
      → Below i s
      → (read_body now active reader key i r s).latest ≡ (
          if bytes_eq r.key key && visible active reader r
          then live_value now (some r)
          else s.latest)
  unfolding read_body live_value
  latest-read_body i r s h = ground (arith, better-Below i r.txn_id s h)

  read_body-Below :
      (i : ℕ) (r : Record) (s : ReadState)
      → Below i s
      → Below (suc i) (read_body now active reader key i r s)
  unfolding read_body
  read_body-Below i r s h j e = ground (arith, better-Below i r.txn_id s h, h j)

  latest-visit :
      (i : ℕ) (rs : List Record) (s : ReadState)
      → Below i s
      → (visit_all (read_body now active reader key) i rs s).latest
        ≡ elim (last_visible active reader key rs) [
          | none ↦ s.latest
          | some r ↦ live_value now (some r)
        ]
  unfolding visit_all last_visible live_value
  latest-visit i [] s h = refl
  latest-visit i (r ∷ rs) s h = ground (
    arith,
    latest-read_body i r s h,
    latest-visit (suc i) rs (read_body now active reader key i r s) (read_body-Below i r s h),
  )

  -- `Read` never panics on a well-formed page, and returns the value of the last visible record.
  pub read-eq-read_spec :
      (m : Memory) (rs : List Record)
      → Holds m rs
      → read now m active reader key ≡ read_spec now active reader key rs
  unfolding read reply live_value
  read-eq-read_spec m rs h =
      ap finish (each_slot-Holds m (read_body now active reader key) rs start h)
      ∙ ground (arith, latest-visit 0 rs start (λ j e. cc))

-- One more record at the end of the page is what a reader that may see it reads.
pub last_visible-append :
    (active : ActiveTxns) (reader : ℕ) (key : List ℕ) (rs : List Record) (r : Record)
    → last_visible active reader key (rs ++ r ∷ []) ≡ (
        if bytes_eq r.key key && visible active reader r
        then some r
        else last_visible active reader key rs)
unfolding last_visible
last_visible-append active reader key [] r = refl
last_visible-append active reader key (s ∷ rs) r =
    ground (arith, last_visible-append active reader key rs r)
