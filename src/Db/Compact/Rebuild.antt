-- ===== src/Db/Compact/Rebuild.antt =====
-- `compactPage` on a well-formed page: it does not panic, and the new page holds the survivors.
use ultimate_db.Prelude.{
  ℕ, suc, ◌+◌, ◌*◌, ◌≤◌, ◌≡◌, refl, ap, some, List, [], ◌∷◌, ◌++◌, arith, length, All,
  length-append,
}
use mathlib.Core.List.{append-nil, append_assoc}
use ultimate_db.Memory.{Memory}
use ultimate_db.Page.{u32, init, get_upper_boundary}
use ultimate_db.Page.Record.{Record, Fits}
use ultimate_db.Page.Place.{place_record}
use ultimate_db.Page.Contents.{Holds, Packed, SlotsHold, total_size, place_record-Packed}
use ultimate_db.Page.Init.{init-Holds}
use ultimate_db.Page.Count.{set_slot_count-Holds}
use ultimate_db.Page.Loop.{visit_all, each_slot-Holds}
use ultimate_db.Db.Compact.{LatestRecords, compact_body, repack, compact_page, values, survivors}
use ultimate_db.Db.Compact.Size.{total-survivors, length-survivors, All-survivors}

pub repack-Holds :
    (m : Memory) (done : List Record) (idx : ℕ) (rest : LatestRecords)
    → idx ≡ length done
    → Packed m done
    → All Fits (values rest)
    → 32 + 4 * (length done + length (values rest)) + total_size (values rest)
      ≤ get_upper_boundary m
    → (m' : Memory) × (repack m idx rest ≡ some m') × Holds m' (done ++ values rest)
unfolding repack
repack-Holds m done idx [] e p f h = (
  _,
  refl,
  rw append-nil (set_slot_count-Holds m (u32 idx) done p (omega (arith, p.upper, p.room))),
)
repack-Holds m done idx ((k, r) ∷ rest) e p f h =
    let (m', placed, p', _, upper') = place_record-Packed m done r p f.0 (omega arith) in
    let (m'', packed, held) =
      repack-Holds m' (done ++ r ∷ []) (suc idx) rest (omega (arith, length-append done (r ∷ [])))
        p' f.1 (omega (arith, length-append done (r ∷ []), upper')) in
    (
      m'',
      ground (arith, e, placed, packed, ap (λ i. place_record m i r) e),
      rw (append_assoc done (r ∷ []) (values rest)) at held,
    )

pub SlotsHold-Fits : (m : Memory) (u i : ℕ) (rs : List Record) → SlotsHold m u i rs → All Fits rs
SlotsHold-Fits m u i [] h = tt
SlotsHold-Fits m u i (r ∷ rs) h = (h.0.fits, SlotsHold-Fits m u (suc i) rs h.1)

-- A compaction never panics on a well-formed page; afterwards the page holds the survivors.
pub compact_page-Holds :
    (now : ℕ) (m : Memory) (rs : List Record)
    → Holds m rs
    → (m' : Memory) × (compact_page now m ≡ some m') × Holds m' (survivors now rs)
unfolding compact_page survivors
compact_page-Holds now m rs h =
    let p = h.packed in
    let e = init-Holds m in
    let (m', packed, held) =
      repack-Holds (init m) [] 0 (visit_all (compact_body now) 0 rs []) refl e.packed
        (All-survivors now Fits rs (SlotsHold-Fits m (get_upper_boundary m) 0 rs p.slots))
        (omega (
          arith,
          total-survivors now rs,
          length-survivors now rs,
          p.upper,
          p.room,
          e.packed.upper,
        )) in
    (m', ground (arith, each_slot-Holds m (compact_body now) rs [] h, packed), held)
