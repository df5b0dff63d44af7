-- ===== src/Db/Scan.antt =====
-- `Scan` of db.go: the records with a key prefix, one for a key, handed to a callback.
use mathlib.Core.Option
use ultimate_db.Prelude.{
  ℕ, suc, ◌<◌, ◌≡◌, refl, ◌∙◌, Bool, true, ◌&&◌, ◌||◌, Option, none, some, List, [], ◌∷◌, arith,
  ltb, leb, nat_eq, if◌then◌else◌, bytes_eq, bytes_eq_iff, bytes_key, Map, lookup, insert, delete,
  lookup-insert, lookup-delete, Option-cases, inl, inr,
}
use ultimate_db.Bytes.{has_prefix}
use ultimate_db.Memory.{Memory}
use ultimate_db.Page.Record.{Record}
use ultimate_db.Page.Contents.{Holds}
use ultimate_db.Page.Loop.{each_slot, visit_all, each_slot-Holds}
use ultimate_db.Db.{Result, ok, err, panic, ActiveTxns, not_expired}
use ultimate_db.Db.Read.{visible, read, last_visible, live_value, reply, read-eq-read_spec}

pub record ScanRecord : Type 0 where
  pub txn_id : ℕ
  pub slot : ℕ
  pub val : List ℕ

abbrev pub Latest : Type 0
Latest = Map (List ℕ) ScanRecord

-- !exists || int(i) > existing.slot || (int(i) == existing.slot && recordTxnID >= existing.txnID)
unfoldable pub scan_better : ℕ → ℕ → Option ScanRecord → Bool
scan_better i txn none = true
scan_better i txn (some e) = ltb e.slot i || (nat_eq i e.slot && leb e.txn_id txn)

unfoldable pub scan_body : ℕ → ActiveTxns → ℕ → List ℕ → ℕ → Record → Latest → Latest
unfolding scan_better not_expired
scan_body now active reader prefix i r latest =
    if visible active reader r && has_prefix r.key prefix
    then (if scan_better i r.txn_id (lookup r.key latest)
        then (if not_expired r.expires_at now
            then insert r.key (record { txn_id = r.txn_id; slot = i; val = r.value }) latest
            else delete r.key latest)
        else latest)
    else latest

-- The map of the slot loop; `none` is a panic.
unfoldable pub scan_latest : ℕ → Memory → ActiveTxns → ℕ → List ℕ → Option Latest
unfolding each_slot scan_body
scan_latest now m active reader prefix = each_slot m (scan_body now active reader prefix) []

-- for k, rec := range latest { if !iter([]byte(k), rec.val) { break } }
unfoldable pub iterate : {A : Type 0} → (A → List ℕ → List ℕ → A × Bool) → A → Latest → A
iterate iter a [] = a
iterate iter a ((k, rec) ∷ rest) =
    let (a', more) = iter a k rec.val in
    let next = iterate iter a' rest in if more then next else a'

unfoldable pub scan :
    {A : Type 0}
    → ℕ
    → Memory
    → ActiveTxns
    → ℕ
    → List ℕ
    → (A → List ℕ → List ℕ → A × Bool)
    → A
    → Option A
unfolding scan_latest iterate
scan now m active reader prefix iter a =
    Option.map (iterate iter a) (scan_latest now m active reader prefix)

-- What the map holds for a key.
unfoldable pub scanned : List ℕ → Latest → Option (List ℕ)
scanned k latest = Option.map (λ e. e.val) (lookup k latest)

abbrev pub found : Result (List ℕ) → Option (List ℕ)
found (ok v) = some v
found (err e) = none
found panic = none

abbrev SlotsBelow : ℕ → Latest → Type 0
SlotsBelow i latest = (k : List ℕ) (e : ScanRecord) → lookup k latest ≡ some e → e.slot < i

module _ (now : ℕ) (active : ActiveTxns) (reader : ℕ) (prefix : List ℕ) where
  abbrev body : ℕ → Record → Latest → Latest
  body = scan_body now active reader prefix

  better-SlotsBelow :
      (i : ℕ) (r : Record) (latest : Latest)
      → SlotsBelow i latest
      → scan_better i r.txn_id (lookup r.key latest) ≡ true
  unfolding scan_better
  better-SlotsBelow i r latest h = elim (Option-cases (lookup r.key latest)) [
    | inl e ↦ rw e
    | inr (x, e) ↦ rw e (ground (arith, h r.key x e))
  ]

  scanned-body :
      (i : ℕ) (r : Record) (latest : Latest) (k : List ℕ)
      → SlotsBelow i latest
      → scanned k (body i r latest) ≡ (
          if bytes_eq r.key k && visible active reader r && has_prefix k prefix
          then live_value now (some r)
          else scanned k latest)
  unfolding scan_body scanned live_value
  scanned-body i r latest k h = ground (
    arith,
    better-SlotsBelow i r latest h,
    bytes_eq_iff r.key k,
    lookup-insert r.key k (record { txn_id = r.txn_id; slot = i; val = r.value }) latest,
    lookup-delete r.key k latest,
  )

  body-SlotsBelow :
      (i : ℕ) (r : Record) (latest : Latest)
      → SlotsBelow i latest
      → SlotsBelow (suc i) (body i r latest)
  unfolding scan_body
  body-SlotsBelow i r latest h k e q = ground (
    arith,
    better-SlotsBelow i r latest h,
    lookup-insert r.key k (record { txn_id = r.txn_id; slot = i; val = r.value }) latest,
    lookup-delete r.key k latest,
    h k e,
  )

  scanned-visit :
      (i : ℕ) (rs : List Record) (latest : Latest) (k : List ℕ)
      → SlotsBelow i latest
      → scanned k (visit_all body i rs latest) ≡ elim (last_visible active reader k rs) [
        | none ↦ scanned k latest
        | some r ↦ if has_prefix k prefix then live_value now (some r) else scanned k latest
      ]
  unfolding visit_all last_visible
  scanned-visit i [] latest k h = refl
  scanned-visit i (r ∷ rs) latest k h = ground (
    arith,
    scanned-body i r latest k h,
    scanned-visit (suc i) rs (body i r latest) k (body-SlotsBelow i r latest h),
  )

  scanned-nil : (k : List ℕ) → scanned k [] ≡ none
  unfolding scanned lookup
  scanned-nil k = refl

  SlotsBelow-nil : SlotsBelow 0 []
  unfolding lookup
  SlotsBelow-nil k e q = cc

  scanned-read :
      (rs : List Record) (k : List ℕ)
      → scanned k (visit_all body 0 rs [])
        ≡ (if has_prefix k prefix then live_value now (last_visible active reader k rs) else none)
  unfolding live_value
  scanned-read rs k = ground (arith, scanned-visit 0 rs [] k SlotsBelow-nil, scanned-nil k)

  found-reply : (o : Option (List ℕ)) → found (reply o) ≡ o
  unfolding reply
  found-reply none = refl
  found-reply (some v) = refl

  -- On a well-formed page `Scan` does not panic, and its map has a key exactly when the key has
  -- the prefix and `Read` returns a value for it; the two values are the same.
  pub scan-read :
      (m : Memory) (rs : List Record)
      → Holds m rs
      → (latest : Latest) × (scan_latest now m active reader prefix ≡ some latest)
        × ((k : List ℕ)
            → scanned k latest
              ≡ (if has_prefix k prefix then found (read now m active reader k) else none))
  unfolding scan_latest
  scan-read m rs h = (
    visit_all body 0 rs [],
    each_slot-Holds m body rs [] h,
    λ k. scanned-read rs k ∙ rw (read-eq-read_spec now active reader k m rs h, found-reply),
  )
