-- ===== src/Page/Contents.antt =====
-- The abstract view of a slotted page: the list of its records, in slot order.
use mathlib.Core.Path.{subst}
use ultimate_db.Prelude.{
  ℕ, suc, ◌+◌, ◌-◌, ◌*◌, ◌^◌, ◌≤◌, ◌<◌, ◌≡◌, ◌∙◌, sym, some, List, [], ◌∷◌, ◌++◌, arith, length,
  length-append,
}
use ultimate_db.Memory.{Memory, Agree, get_word, get_word-ext}
use ultimate_db.Page.{u32, page_size, get_lower_boundary, get_upper_boundary, get_slot_count}
use ultimate_db.Page.Record.{Record, RecordAt, RecordAt-ext, Fits, record_size}
use ultimate_db.Page.Place.{
  placed, place_record, placed-outside, count-placed, upper-placed, lower-placed, offset-placed,
  length-placed, stored-placed,
}

abbrev pub slot_offset : Memory → ℕ → ℕ
slot_offset m i = get_word 2 m (32 + 4 * i)

abbrev pub slot_length : Memory → ℕ → ℕ
slot_length m i = get_word 2 m (32 + 4 * i + 2)

-- Slot `i` frames the record `r`, which lies between `upper` and the end of the page.
pub record SlotHolds (m : Memory) (upper i : ℕ) (r : Record) : Type 0 where
  pub above : upper ≤ slot_offset m i
  pub inside : slot_offset m i + record_size r ≤ page_size
  pub framed : slot_length m i ≡ record_size r
  pub stored : RecordAt m (slot_offset m i) r
  pub fits : Fits r

abbrev pub SlotsHold : Memory → ℕ → ℕ → List Record → Type 0
SlotsHold m upper i [] = Unit
SlotsHold m upper i (r ∷ rs) = SlotHolds m upper i r × SlotsHold m upper (suc i) rs

abbrev pub total_size : List Record → ℕ
total_size [] = 0
total_size (r ∷ rs) = record_size r + total_size rs

pub total_size-append :
    (rs ss : List Record) → total_size (rs ++ ss) ≡ total_size rs + total_size ss
total_size-append [] ss = omega arith
total_size-append (r ∷ rs) ss = omega (arith, total_size-append rs ss)

-- The body of a page holds exactly `rs`: the boundaries are where the records put them.
pub record Packed (m : Memory) (rs : List Record) : Type 0 where
  pub lower : get_lower_boundary m ≡ 32 + 4 * length rs
  pub upper : get_upper_boundary m + total_size rs ≡ page_size
  pub room : 32 + 4 * length rs ≤ get_upper_boundary m
  pub slots : SlotsHold m (get_upper_boundary m) 0 rs

-- The page `m` holds the records `rs`.
pub record Holds (m : Memory) (rs : List Record) : Type 0 where
  pub count : get_slot_count m ≡ length rs
  pub packed : Packed m rs

SlotHolds-ext :
    {m m' : Memory} {u : ℕ} (u' i : ℕ) (r : Record)
    → u' ≤ u
    → Agree (32 + 4 * i) (36 + 4 * i) m m'
    → Agree u page_size m m'
    → SlotHolds m u i r
    → SlotHolds m' u' i r
SlotHolds-ext {m} {m'} {u} u' i r le dir body h = record {
  above = omega (arith, h.above, offset_kept);
  inside = omega (arith, h.inside, offset_kept);
  framed =
      get_word-ext 2 (32 + 4 * i + 2) (λ j a b. sym (dir j (omega arith) (omega arith))) ∙ h.framed;
  stored = rw offset_kept (
      RecordAt-ext (slot_offset m i) r
        (λ j a b. body j (omega (arith, h.above)) (omega (arith, h.inside))) h.stored);
  fits = h.fits;
}
  where
    offset_kept : slot_offset m' i ≡ slot_offset m i
    offset_kept = get_word-ext 2 (32 + 4 * i) (λ j a b. sym (dir j (omega arith) (omega arith)))

pub SlotsHold-ext :
    {m m' : Memory} {u : ℕ} (u' i : ℕ) (rs : List Record)
    → u' ≤ u
    → Agree (32 + 4 * i) (32 + 4 * (i + length rs)) m m'
    → Agree u page_size m m'
    → SlotsHold m u i rs
    → SlotsHold m' u' i rs
SlotsHold-ext u' i [] le dir body h = tt
SlotsHold-ext u' i (r ∷ rs) le dir body h = (
  SlotHolds-ext u' i r le (λ j a b. dir j (omega arith) (omega arith)) body h.0,
  SlotsHold-ext u' (suc i) rs le (λ j a b. dir j (omega arith) (omega arith)) body h.1,
)

SlotsHold-append :
    {m : Memory} {u : ℕ} (i n : ℕ) (rs : List Record) (r : Record)
    → i + length rs ≡ n
    → SlotsHold m u i rs
    → SlotHolds m u n r
    → SlotsHold m u i (rs ++ r ∷ [])
SlotsHold-append {m} {u} i n [] r e h k = (subst (λ j. SlotHolds m u j r) (omega arith) k, tt)
SlotsHold-append i n (s ∷ rs) r e h k = (h.0, SlotsHold-append (suc i) n rs r (omega arith) h.1 k)

-- A record with its slot fits between the boundaries of a page.
abbrev pub HasRoom : Memory → List Record → Record → Type 0
HasRoom m rs r = 32 + 4 * length rs + 4 + record_size r ≤ get_upper_boundary m

module _ (m : Memory) (rs : List Record) (r : Record) (p : Packed m rs) (f : Fits r)
    (h : HasRoom m rs r) where
  abbrev at : ℕ
  at = get_upper_boundary m - record_size r

  abbrev after : Memory
  after = placed m at (length rs) r

  below_limit : get_upper_boundary m ≤ page_size
  below_limit = omega (arith, p.upper)

  address : u32 (get_upper_boundary m + 2 ^ 32 - u32 (record_size r)) ≡ at
  address = omega (arith, below_limit)

  place_record-eq : place_record m (length rs) r ≡ some after
  unfolding place_record
  place_record-eq = ground (arith, below_limit, address)

  placed-Packed : Packed after (rs ++ r ∷ [])
  placed-Packed = record {
    lower = lower-placed m at (length rs) r low ∙ omega (arith, length-append rs (r ∷ []));
    upper = omega (arith, upper_is, total_size-append rs (r ∷ []), p.upper);
    room = omega (arith, upper_is, length-append rs (r ∷ []), p.room);
    slots = rw upper_is (
        SlotsHold-append 0 (length rs) rs r (omega arith)
          (SlotsHold-ext at 0 rs (omega arith)
            (λ i a b.
              sym
                (placed-outside m at (length rs) r low i (omega arith) (omega arith) (omega arith)))
            (λ i a b.
              sym
                (placed-outside m at (length rs) r low i (omega arith) (omega arith) (omega arith)))
            p.slots)
          new_slot);
  }
    where
      low : length rs < 8192
      low = omega (arith, below_limit)

      upper_is : get_upper_boundary after ≡ at
      upper_is = upper-placed m at (length rs) r low (omega (arith, below_limit))

      offset_is : slot_offset after (length rs) ≡ at
      offset_is = offset-placed m at (length rs) r low (omega (arith, below_limit))

      new_slot : SlotHolds after at (length rs) r
      new_slot = record {
        above = omega (arith, offset_is);
        inside = omega (arith, offset_is, below_limit);
        framed = length-placed m at (length rs) r low (omega (arith, below_limit));
        stored = rw offset_is (stored-placed m at (length rs) r low f (omega arith));
        fits = f;
      }

-- Placing a record in a page with room succeeds, and the page then holds that record last.
pub place_record-Packed :
    (m : Memory) (rs : List Record) (r : Record)
    → Packed m rs
    → Fits r
    → HasRoom m rs r
    → (m' : Memory) × (place_record m (length rs) r ≡ some m')
      × Packed m' (rs ++ r ∷ [])
      × (get_slot_count m' ≡ get_slot_count m)
      × (get_upper_boundary m' + record_size r ≡ get_upper_boundary m)
place_record-Packed m rs r p f h = (
  after m rs r p f h,
  place_record-eq m rs r p f h,
  placed-Packed m rs r p f h,
  count-placed m (at m rs r p f h) (length rs) r (omega (arith, p.upper)) (omega arith),
  omega (
    arith,
    upper-placed m (at m rs r p f h) (length rs) r (omega (arith, p.upper))
        (omega (arith, p.upper)),
  ),
)
