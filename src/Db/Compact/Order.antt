-- ===== src/Db/Compact/Order.antt =====
-- `compactPage` ranges over a map, so Go may pack the survivors in any order. The model takes the
-- order of the list; the readers of the page do not see which order it was.
use mathlib.Core.Path.{subst}
use mathlib.Core.List.{Permᴰ}
use ultimate_db.Prelude.{
  ℕ, suc, ◌≡◌, refl, ◌∙◌, ap, sym, Option, none, some, List, [], ◌∷◌, arith, if◌then◌else◌,
  bytes_key, bytes_eq, bytes_eq_iff, lookup, insert, insert-Unique, Unique, length, All, Bool-cases,
  inl, inr, Permᴰ-Same,
}
use ultimate_db.Memory.{Memory}
use ultimate_db.Page.{init, get_upper_boundary}
use ultimate_db.Page.Record.{Record, Fits}
use ultimate_db.Page.Contents.{Holds, total_size}
use ultimate_db.Page.Init.{init-Holds}
use ultimate_db.Page.Loop.{visit_all}
use ultimate_db.Db.{ActiveTxns, not_expired}
use ultimate_db.Db.Read.{visible, read, last_visible, reply, live_value, read-eq-read_spec}
use ultimate_db.Db.Compact.{
  LatestRecords, compact_body, repack, compact_page, values, survivors, newer,
}
use ultimate_db.Db.Compact.Size.{total-survivors, length-survivors, All-survivors}
use ultimate_db.Db.Compact.Rebuild.{repack-Holds, SlotsHold-Fits, compact_page-Holds}

-- What latestRecords holds after the loop over the slots.
abbrev pub latest_of : ℕ → List Record → LatestRecords
latest_of now rs = visit_all (compact_body now) 0 rs []

values-latest_of : (now : ℕ) (rs : List Record) → values (latest_of now rs) ≡ survivors now rs
unfolding survivors
values-latest_of now rs = refl

abbrev Keyed : LatestRecords → Type 0
Keyed [] = Unit
Keyed ((k, r) ∷ l) = (k ≡ r.key) × Keyed l

insert-Keyed : (r : Record) (l : LatestRecords) → Keyed l → Keyed (insert r.key r l)
unfolding insert
insert-Keyed r [] h = (refl, tt)
insert-Keyed r ((k, s) ∷ l) h = elim (Bool-cases (bytes_eq k r.key)) [
  | inl e ↦ rw e (refl, h.1)
  | inr e ↦ rw e (h.0, insert-Keyed r l h.1)
]

abbrev IsMap : LatestRecords → Type 0
IsMap l = Keyed l × Unique l

body-IsMap : (now i : ℕ) (r : Record) (l : LatestRecords) → IsMap l → IsMap (compact_body now i r l)
unfolding compact_body
body-IsMap now i r l h = elim (Bool-cases (newer r (lookup r.key l))) [
  | inl e ↦ elim (Bool-cases (not_expired r.expires_at now)) [
    | inl live ↦ rw (e, live) (insert-Keyed r l h.0, insert-Unique r.key r l h.1)
    | inr dead ↦ rw (e, dead) h
  ]
  | inr e ↦ rw e h
]

visit-IsMap :
    (now i : ℕ) (rs : List Record) (l : LatestRecords)
    → IsMap l
    → IsMap (visit_all (compact_body now) i rs l)
unfolding visit_all
visit-IsMap now i [] l h = h
visit-IsMap now i (r ∷ rs) l h =
    visit-IsMap now (suc i) rs (compact_body now i r l) (body-IsMap now i r l h)

latest_of-IsMap : (now : ℕ) (rs : List Record) → IsMap (latest_of now rs)
latest_of-IsMap now rs = visit-IsMap now 0 rs [] (tt, tt)

-- In such a map the last visible record with a key is the entry of the key, if it is visible.
abbrev seen : ActiveTxns → ℕ → Option Record → Option Record
seen active reader none = none
seen active reader (some r) = if visible active reader r then some r else none

last_visible-values :
    (active : ActiveTxns) (reader : ℕ) (key : List ℕ) (l : LatestRecords)
    → IsMap l
    → last_visible active reader key (values l) ≡ seen active reader (lookup key l)
unfolding last_visible lookup
last_visible-values active reader key [] h = refl
last_visible-values active reader key ((k, r) ∷ l) h = ground (
  arith,
  last_visible-values active reader key l (h.0.1, h.1.1),
  h.0.0,
  h.1.0,
  bytes_eq_iff k key,
  bytes_eq_iff r.key key,
)

-- An order keeps the sizes.
Permᴰ-total : {l l' : LatestRecords} → Permᴰ l l' → total_size (values l) ≡ total_size (values l')
Permᴰ-total Permᴰ.nil = refl
Permᴰ-total (Permᴰ.cons same d) = ground (arith, same, Permᴰ-total d)
Permᴰ-total (Permᴰ.swap same same') = ground (arith, same, same')
Permᴰ-total (Permᴰ.trans d d') = Permᴰ-total d ∙ Permᴰ-total d'

Permᴰ-length : {l l' : LatestRecords} → Permᴰ l l' → length (values l) ≡ length (values l')
Permᴰ-length Permᴰ.nil = refl
Permᴰ-length (Permᴰ.cons same d) = ground (arith, Permᴰ-length d)
Permᴰ-length (Permᴰ.swap same same') = refl
Permᴰ-length (Permᴰ.trans d d') = Permᴰ-length d ∙ Permᴰ-length d'

Permᴰ-Fits : {l l' : LatestRecords} → Permᴰ l l' → All Fits (values l) → All Fits (values l')
Permᴰ-Fits Permᴰ.nil h = h
Permᴰ-Fits (Permᴰ.cons same d) h = (subst (λ x. Fits x.1) same h.0, Permᴰ-Fits d h.1)
Permᴰ-Fits (Permᴰ.swap same same') h =
    (subst (λ x. Fits x.1) same' h.1.0, (subst (λ x. Fits x.1) same h.0, h.1.1))
Permᴰ-Fits (Permᴰ.trans d d') h = Permᴰ-Fits d' (Permᴰ-Fits d h)

Permᴰ-Keyed : {l l' : LatestRecords} → Permᴰ l l' → Keyed l → Keyed l'
Permᴰ-Keyed Permᴰ.nil h = h
Permᴰ-Keyed (Permᴰ.cons same d) h = (subst (λ x. x.0 ≡ x.1.key) same h.0, Permᴰ-Keyed d h.1)
Permᴰ-Keyed (Permᴰ.swap same same') h =
    (subst (λ x. x.0 ≡ x.1.key) same' h.1.0, (subst (λ x. x.0 ≡ x.1.key) same h.0, h.1.1))
Permᴰ-Keyed (Permᴰ.trans d d') h = Permᴰ-Keyed d' (Permᴰ-Keyed d h)

module _ (clock : ℕ) (m : Memory) (rs : List Record) (h : Holds m rs) (order : LatestRecords)
    (perm : Permᴰ (latest_of clock rs) order) where
  -- The survivors fit the page in any order.
  repacked : (m' : Memory) × (repack (init m) 0 order ≡ some m') × Holds m' (values order)
  repacked =
      let p = h.packed in
      let e = init-Holds m in
      repack-Holds (init m) [] 0 order refl e.packed
        (Permᴰ-Fits perm (
          subst (All Fits) (sym (values-latest_of clock rs))
            (All-survivors clock Fits rs (SlotsHold-Fits m (get_upper_boundary m) 0 rs p.slots))))
        (omega (
          arith,
          Permᴰ-total perm,
          Permᴰ-length perm,
          ap total_size (values-latest_of clock rs),
          ap length (values-latest_of clock rs),
          total-survivors clock rs,
          length-survivors clock rs,
          p.upper,
          p.room,
          e.packed.upper,
        ))

  last_visible-order :
      (active : ActiveTxns) (reader : ℕ) (key : List ℕ)
      → last_visible active reader key (values order)
        ≡ last_visible active reader key (survivors clock rs)
  last_visible-order active reader key =
      let latest = latest_of-IsMap clock rs in
      let (unique, same) = Permᴰ-Same perm latest.1 in
      last_visible-values active reader key order (Permᴰ-Keyed perm latest.0, unique)
      ∙ ap (seen active reader) (sym (same key))
      ∙ sym (last_visible-values active reader key (latest_of clock rs) latest)
      ∙ ap (last_visible active reader key) (values-latest_of clock rs)

  -- On a page that holds records, in whatever order the range over latestRecords packs them again,
  -- the loop does not panic, the new page holds them in that order, and Read answers every reader
  -- at any time and for every key as on the page that the model's compactPage leaves.
  pub read-repack :
      (m' : Memory) × (compact_page clock m ≡ some m')
      × ((m'' : Memory) × (repack (init m) 0 order ≡ some m'')
          × Holds m'' (values order)
          × ((now : ℕ) (active : ActiveTxns) (reader : ℕ) (key : List ℕ)
              → read now m'' active reader key ≡ read now m' active reader key))
  read-repack =
      let (m', compacted, held) = compact_page-Holds clock m rs h in
      let (m'', packed, held') = repacked in
      (
        m',
        compacted,
        (
          m'',
          packed,
          held',
          λ now active reader key.
              read-eq-read_spec now active reader key m'' (values order) held'
              ∙ ap (λ o. reply (live_value now o)) (last_visible-order active reader key)
              ∙ sym (read-eq-read_spec now active reader key m' (survivors clock rs) held),
        ),
      )
