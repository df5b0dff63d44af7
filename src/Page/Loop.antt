-- ===== src/Page/Loop.antt =====
-- `for i := 0; i < slotCount; i++ { slot, err := page.GetSlot(i); if err != nil || slot.Length == 0
-- { continue } ... }`: the loop that `Read`, `Scan` and `compactPage` of db.go share.
use mathlib.Core.Option
use ultimate_db.Prelude.{
  ℕ, zero, suc, ◌+◌, ◌*◌, ◌≤◌, ◌<◌, ◌≡◌, refl, ◌∙◌, Option, none, some, List, [], ◌∷◌, arith,
  length, nat_eq, if◌then◌else◌, ap,
}
use ultimate_db.Memory.{Memory}
use ultimate_db.Page.{get_slot, get_slot_count, get_upper_boundary, u32, page_header_size}
use ultimate_db.Page.Record.{Record, record_at, record_at-RecordAt}
use ultimate_db.Page.Contents.{Holds, SlotHolds, SlotsHold, slot_offset, slot_length}

module _ {S : Type 0} (m : Memory) (body : ℕ → Record → S → S) where
  -- One round; `none` is a panic.
  slot_step : ℕ → S → Option S
  slot_step i s = elim (get_slot m i) [
    | none ↦ some s
    | some slot ↦
        if nat_eq slot.length 0 then some s else Option.map (λ r. body i r s) (record_at m slot)
  ]

  each_from : ℕ → ℕ → S → Option S
  each_from zero i s = some s
  each_from (suc n) i s = elim (slot_step i s) [ none ↦ none | some s' ↦ each_from n (suc i) s' ]

  unfoldable pub each_slot : S → Option S
  unfolding each_from slot_step
  each_slot s = each_from (get_slot_count m) 0 s

-- The same loop over a list of records.
unfoldable pub visit_all : {S : Type 0} → (ℕ → Record → S → S) → ℕ → List Record → S → S
visit_all body i [] s = s
visit_all body i (r ∷ rs) s = visit_all body (suc i) rs (body i r s)

slot_address : (i : ℕ) → i < 8192 → u32 (page_header_size + u32 (i * 4)) ≡ 32 + 4 * i
slot_address i h = omega arith

get_slot-eq :
    (m : Memory) (i : ℕ)
    → i < get_slot_count m
    → i < 8192
    → get_slot m i ≡ some (record { offset = slot_offset m i; length = slot_length m i })
unfolding get_slot
get_slot-eq m i h k = ground (arith, slot_address i k)

module _ {S : Type 0} (m : Memory) (body : ℕ → Record → S → S) where
  slot_step-eq :
      (i u : ℕ) (r : Record) (s : S)
      → i < get_slot_count m
      → i < 8192
      → SlotHolds m u i r
      → slot_step m body i s ≡ some (body i r s)
  unfolding slot_step
  slot_step-eq i u r s lt low h = ground (
    arith,
    get_slot-eq m i lt low,
    h.framed,
    record_at-RecordAt m (record { offset = slot_offset m i; length = slot_length m i }) r h.stored
        h.framed h.inside,
  )

  each_from-eq :
      (u i : ℕ) (rs : List Record) (s : S)
      → i + length rs ≤ get_slot_count m
      → i + length rs ≤ 8192
      → SlotsHold m u i rs
      → each_from m body (length rs) i s ≡ some (visit_all body i rs s)
  unfolding each_from visit_all
  each_from-eq u i [] s le low h = refl
  each_from-eq u i (r ∷ rs) s le low h = ground (
    arith,
    slot_step-eq i u r s (omega arith) (omega arith) h.0,
    each_from-eq u (suc i) rs (body i r s) (omega arith) (omega arith) h.1,
  )

  -- Over a page that holds `rs` the loop never panics and visits the records in order.
  pub each_slot-Holds :
      (rs : List Record) (s : S) → Holds m rs → each_slot m body s ≡ some (visit_all body 0 rs s)
  unfolding each_slot
  each_slot-Holds rs s h =
      ap (λ n. each_from m body n 0 s) h.count
      ∙ each_from-eq (get_upper_boundary m) 0 rs s (omega (arith, h.count))
          (omega (arith, h.packed.room, h.packed.upper)) h.packed.slots
