-- ===== src/Db/Laws.antt =====
-- What a client of `Write` and `Read` of db.go can rely on.
use mathlib.Core.Path.{subst}
use ultimate_db.Prelude.{
  suc, All, ℕ, ◌≡◌, refl, ◌∙◌, ap, sym, true, false, Option, none, some, List, [], ◌∷◌, ◌++◌,
  if◌then◌else◌, arith, bytes_eq, ◌≢◌, bytes_eq_refl, ◌&&◌,
}
use ultimate_db.Memory.{Memory}
use ultimate_db.Page.{init}
use ultimate_db.Page.Record.{Record, Fits}
use ultimate_db.Page.Contents.{Holds}
use ultimate_db.Page.Init.{init-Holds}
use ultimate_db.Db.{Result, ok, err, panic, key_not_found, ActiveTxns, not_expired}
use ultimate_db.Db.Read.{
  visible, read, read_spec, last_visible, live_value, reply, read-eq-read_spec, last_visible-append,
}
use ultimate_db.Db.Compact.{compact_page, survivors, compact_body, values}
use ultimate_db.Db.Compact.Rebuild.{compact_page-Holds}
use ultimate_db.Page.Loop.{visit_all}
use ultimate_db.Db.Write.{write_record, has_room, kept, written, write_reply}
use ultimate_db.Db.Write.Refine.{write_record-refines}

visit_all-append :
    {S : Type 0} (body : ℕ → Record → S → S) (i : ℕ) (rs : List Record) (r : Record) (s : S)
    → (j : ℕ) × (visit_all body i (rs ++ r ∷ []) s ≡ body j r (visit_all body i rs s))
unfolding visit_all
visit_all-append body i [] r s = (i, refl)
visit_all-append body i (x ∷ rs) r s = visit_all-append body (suc i) rs r (body i x s)

survivors-expired :
    (now : ℕ) (rs : List Record) (r : Record)
    → not_expired r.expires_at now ≡ false
    → survivors now (rs ++ r ∷ []) ≡ survivors now rs
unfolding survivors
survivors-expired now rs r dead =
    let (j, e) = visit_all-append (compact_body now) 0 rs r [] in ap values e ∙ ground (arith, dead)

reply-ne-panic : (o : Option (List ℕ)) → reply o ≢ panic
unfolding reply
reply-ne-panic none e = cc
reply-ne-panic (some v) e = cc

-- The value of a visible record, or the error if it has expired.
abbrev pub value_reply : ℕ → Record → Result (List ℕ)
value_reply now r = if not_expired r.expires_at now then ok r.value else err key_not_found

module _ (clock now : ℕ) (m : Memory) (rs : List Record) (r : Record) (h : Holds m rs)
    (f : Fits r) where
  written_ok : (write_record clock m r).1 ≡ ok tt → written clock rs r ≡ kept clock rs r ++ r ∷ []
  unfolding written write_reply
  written_ok e =
      let (m', w, h') = write_record-refines clock m rs r h f in ground (arith, ap (λ p. p.1) w)

  pub reply-write_record : (write_record clock m r).1 ≡ write_reply clock rs r
  reply-write_record = let (m', w, h') = write_record-refines clock m rs r h f in ap (λ p. p.1) w

  pub kept_of_room :
      has_room rs r ≡ true → (kept clock rs r ≡ rs) × (write_reply clock rs r ≡ ok tt)
  unfolding kept write_reply
  kept_of_room room = (rw room, rw (room, room))

  -- What a later read sees: the new record if it may, and else what the page held before it.
  pub read-write_record :
      (active : ActiveTxns) (reader : ℕ) (key : List ℕ)
      → (write_record clock m r).1 ≡ ok tt
      → read now (write_record clock m r).0 active reader key ≡ (
          if bytes_eq r.key key && visible active reader r
          then value_reply now r
          else read_spec now active reader key (kept clock rs r))
  unfolding reply live_value
  read-write_record active reader key e =
      let (m', w, h') = write_record-refines clock m rs r h f in
      ap (λ p. read now p.0 active reader key) w
      ∙ read-eq-read_spec now active reader key m' (written clock rs r) h'
      ∙ ap (λ l. read_spec now active reader key l) (written_ok e)
      ∙ ground (arith, last_visible-append active reader key (kept clock rs r) r)

-- After a successful `Write`, a reader that may see the record reads it back: its value, or the
-- error "not found" if the record has expired by then.
pub read-write_self :
    (clock now : ℕ) (m : Memory) (rs : List Record) (r : Record) (active : ActiveTxns) (reader : ℕ)
    → Holds m rs
    → Fits r
    → visible active reader r ≡ true
    → (write_record clock m r).1 ≡ ok tt
    → read now (write_record clock m r).0 active reader r.key ≡ value_reply now r
read-write_self clock now m rs r active reader h f v e =
    read-write_record clock now m rs r h f active reader r.key e ∙ rw (bytes_eq_refl r.key, v)

-- A `Write` that needs no compaction does not change what `Read` returns for another key, nor for
-- any key to a reader that may not see the new record.
pub read-write_other :
    (clock now : ℕ) (m : Memory) (rs : List Record) (r : Record) (active : ActiveTxns) (reader : ℕ)
    (key : List ℕ)
    → Holds m rs
    → Fits r
    → has_room rs r ≡ true
    → bytes_eq r.key key && visible active reader r ≡ false
    → read now (write_record clock m r).0 active reader key ≡ read now m active reader key
read-write_other clock now m rs r active reader key h f room unseen =
    read-write_record clock now m rs r h f active reader key
      (reply-write_record clock now m rs r h f ∙ (kept_of_room clock now m rs r h f room).1)
    ∙ rw (unseen, (kept_of_room clock now m rs r h f room).0)
        (sym (read-eq-read_spec now active reader key m rs h))

-- One call of `Write`, with the clock's value at the call.
pub record Request : Type 0 where
  pub clock : ℕ
  pub item : Record

unfoldable pub run : Memory → List Request → Memory
run m [] = m
run m (q ∷ qs) = run (write_record q.clock m q.item).0 qs

run-Holds :
    (m : Memory) (rs : List Record) (qs : List Request)
    → Holds m rs
    → All (λ q. Fits q.item) qs
    → (ss : List Record) × Holds (run m qs) ss
unfolding run
run-Holds m rs [] h f = (rs, h)
run-Holds m rs (q ∷ qs) h f =
    let (m', w, h') = write_record-refines q.clock m rs q.item h f.0 in
    run-Holds (write_record q.clock m q.item).0 (written q.clock rs q.item) qs
      (subst (λ p. Holds p (written q.clock rs q.item)) (ap (λ p. p.0) (sym w)) h') f.1

-- Whatever records are written to a formatted page, successfully or not, the page stays well
-- formed: its boundaries and slots frame exactly a list of records, and no `Read` panics.
pub run-IsWellFormed :
    (m : Memory) (qs : List Request)
    → All (λ q. Fits q.item) qs
    → (ss : List Record) × Holds (run (init m) qs) ss
      × ((now : ℕ) (active : ActiveTxns) (reader : ℕ) (key : List ℕ)
          → read now (run (init m) qs) active reader key ≢ panic)
unfolding reply
run-IsWellFormed m qs f =
    let (ss, h) = run-Holds (init m) [] qs (init-Holds m) f in
    (
      ss,
      h,
      λ now active reader key e.
          reply-ne-panic (live_value now (last_visible active reader key ss))
            (sym (read-eq-read_spec now active reader key (run (init m) qs) ss h) ∙ e),
    )

-- A compaction passes over expired records, so it forgets a deletion: of a page whose last record
-- is an expired one with the key, the compacted page holds just what it would hold without it,
-- although `Read` finds nothing before the compaction.
pub compaction_forgets_deletion :
    (now : ℕ) (m : Memory) (rs : List Record) (r : Record) (active : ActiveTxns) (reader : ℕ)
    → Holds m (rs ++ r ∷ [])
    → not_expired r.expires_at now ≡ false
    → visible active reader r ≡ true
    → (read now m active reader r.key ≡ err key_not_found)
      × ((m' : Memory) × (compact_page now m ≡ some m') × Holds m' (survivors now rs))
unfolding reply live_value
compaction_forgets_deletion now m rs r active reader h dead seen =
    let (m', e, h') = compact_page-Holds now m (rs ++ r ∷ []) h in
    (
      read-eq-read_spec now active reader r.key m (rs ++ r ∷ []) h
          ∙ ground (arith, last_visible-append active reader r.key rs r, bytes_eq_refl r.key),
      (m', e, subst (Holds m') (survivors-expired now rs r dead) h'),
    )
