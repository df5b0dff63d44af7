-- ===== src/Db/Compact/Size.antt =====
-- A compaction keeps no more records, and no more bytes, than the page had.
use ultimate_db.Prelude.{
  ℕ, suc, ◌+◌, ◌≤◌, Bool, true, false, List, [], ◌∷◌, arith, if◌then◌else◌, bytes_key, lookup,
  insert, length, All,
}
use ultimate_db.Page.Record.{Record, record_size}
use ultimate_db.Page.Contents.{total_size}
use ultimate_db.Page.Loop.{visit_all}
use ultimate_db.Db.Compact.{LatestRecords, compact_body, values, survivors, newer}
use ultimate_db.Db.{not_expired}

total-insert :
    (k : List ℕ) (r : Record) (l : LatestRecords)
    → total_size (values (insert k r l)) ≤ total_size (values l) + record_size r
unfolding insert
total-insert k r [] = omega arith
total-insert k r ((j, s) ∷ l) = ground (arith, total-insert k r l)

length-insert :
    (k : List ℕ) (r : Record) (l : LatestRecords)
    → length (values (insert k r l)) ≤ length (values l) + 1
unfolding insert
length-insert k r [] = omega arith
length-insert k r ((j, s) ∷ l) = ground (arith, length-insert k r l)

All-if {ℓ} :
    (P : Record → Type ℓ) (b : Bool) (x y : LatestRecords)
    → All P (values x)
    → All P (values y)
    → All P (values (if b then x else y))
All-if P true x y hx hy = hx
All-if P false x y hx hy = hy

All-insert {ℓ} :
    (P : Record → Type ℓ) (k : List ℕ) (r : Record) (l : LatestRecords)
    → P r
    → All P (values l)
    → All P (values (insert k r l))
unfolding insert
All-insert P k r [] h hs = (h, tt)
All-insert P k r ((j, s) ∷ l) h hs =
    All-if P _ ((k, r) ∷ l) ((j, s) ∷ insert k r l) (h, hs.1) (hs.0, All-insert P k r l h hs.1)

module _ (now : ℕ) where
  total-body :
      (i : ℕ) (r : Record) (l : LatestRecords)
      → total_size (values (compact_body now i r l)) ≤ total_size (values l) + record_size r
  unfolding compact_body
  total-body i r l = ground (arith, total-insert r.key r l)

  length-body :
      (i : ℕ) (r : Record) (l : LatestRecords)
      → length (values (compact_body now i r l)) ≤ length (values l) + 1
  unfolding compact_body
  length-body i r l = ground (arith, length-insert r.key r l)

  total-visit :
      (i : ℕ) (rs : List Record) (l : LatestRecords)
      → total_size (values (visit_all (compact_body now) i rs l))
        ≤ total_size (values l) + total_size rs
  unfolding visit_all
  total-visit i [] l = omega arith
  total-visit i (r ∷ rs) l =
      omega (arith, total-body i r l, total-visit (suc i) rs (compact_body now i r l))

  length-visit :
      (i : ℕ) (rs : List Record) (l : LatestRecords)
      → length (values (visit_all (compact_body now) i rs l)) ≤ length (values l) + length rs
  unfolding visit_all
  length-visit i [] l = omega arith
  length-visit i (r ∷ rs) l =
      omega (arith, length-body i r l, length-visit (suc i) rs (compact_body now i r l))

  pub total-survivors : (rs : List Record) → total_size (survivors now rs) ≤ total_size rs
  unfolding survivors
  total-survivors rs = omega (arith, total-visit 0 rs [])

  pub length-survivors : (rs : List Record) → length (survivors now rs) ≤ length rs
  unfolding survivors
  length-survivors rs = omega (arith, length-visit 0 rs [])

  module _ {ℓ} (P : Record → Type ℓ) where
    All-body :
        (i : ℕ) (r : Record) (l : LatestRecords)
        → P r
        → All P (values l)
        → All P (values (compact_body now i r l))
    unfolding compact_body
    All-body i r l h hs =
        All-if P (newer r (lookup r.key l))
          (if not_expired r.expires_at now then insert r.key r l else l) l
          (All-if P (not_expired r.expires_at now) (insert r.key r l) l
            (All-insert P r.key r l h hs) hs)
          hs

    All-visit :
        (i : ℕ) (rs : List Record) (l : LatestRecords)
        → All P rs
        → All P (values l)
        → All P (values (visit_all (compact_body now) i rs l))
    unfolding visit_all
    All-visit i [] l hs h = h
    All-visit i (r ∷ rs) l hs h =
        All-visit (suc i) rs (compact_body now i r l) hs.1 (All-body i r l hs.0 h)

    -- What holds of every record of a page holds of every record that survives.
    pub All-survivors : (rs : List Record) → All P rs → All P (survivors now rs)
    unfolding survivors
    All-survivors rs hs = All-visit 0 rs [] hs tt
