-- ===== src/Pool/Victims.antt =====
-- The evictor's victims are not pinned: the loop of getAvailableFrame.
use mathlib.Core.Path.{subst}
use ultimate_db.Prelude.{
  ℕ, zero, suc, ◌≡◌, refl, ◌∙◌, ap, sym, Bool, true, false, not, none, some, List, arith, inl, inr,
  Bool-cases, Option-cases, if◌then◌else◌, nat_eq, nat_eq_iff, ℤ, lookup, delete, lookup-delete,
  nat_key, Map,
}
use ultimate_db.Memory.{Memory}
use ultimate_db.Pool.{
  record_access, evict, BlockDevice, BufferPool, is_pinned, Available, frame, write_failed,
  exhausted, spinning, set_frame, sealed, victim_loop,
}
use ultimate_db.Pool.Flush.{pins}

module _ {D : Type 0} (device : BlockDevice D) (compute_checksum : Memory → ℕ) where
  module _ (id j : ℕ) (p : ℤ) where
    -- The frame that is given away is not `j`, and the page `id` is still in `j`, pinned as before.
    abbrev pub Spared : Available D → Type 0
    Spared (frame bp i) =
        (nat_eq i j ≡ false) × (lookup id bp.page_table ≡ some j) × (pins bp j ≡ p)
    Spared (write_failed bp) = (lookup id bp.page_table ≡ some j) × (pins bp j ≡ p)
    Spared (exhausted bp) = (lookup id bp.page_table ≡ some j) × (pins bp j ≡ p)
    Spared spinning = Unit

    pub if-Spared :
        (c : Bool) (x y : Available D) → Spared x → Spared y → Spared (if c then x else y)
    if-Spared true x y h k = h
    if-Spared false x y h k = k

    module _ (fuel : ℕ) (bp : BufferPool D) where
      victim_none :
          evict bp.order ≡ none → victim_loop device compute_checksum (suc fuel) bp ≡ exhausted bp
      unfolding victim_loop
      victim_none e = ground (arith, e)

      victim_unknown :
          (k : ℕ) (rest : List ℕ)
          → evict bp.order ≡ some (k, rest)
          → lookup k bp.page_table ≡ none
          → victim_loop device compute_checksum (suc fuel) bp
            ≡ victim_loop device compute_checksum fuel (record bp { order = rest })
      unfolding victim_loop
      victim_unknown k rest e away = ground (arith, e, away)

      abbrev written : ℕ → D × Bool
      written i =
          device.write_block bp.disk ((bp.frames i).id)
            (sealed device compute_checksum (bp.frames i))

      abbrev after : ℕ → List ℕ → BufferPool D
      after i order =
          set_frame (record bp { disk = (written i).0; order = order }) i
            (record (bp.frames i) { bytes = sealed device compute_checksum (bp.frames i) })

      victim_found :
          (k i : ℕ) (rest : List ℕ)
          → evict bp.order ≡ some (k, rest)
          → lookup k bp.page_table ≡ some i
          → victim_loop device compute_checksum (suc fuel) bp ≡ (
              if is_pinned (bp.frames i).pin_count
              then victim_loop device compute_checksum fuel
                  (record bp { order = record_access rest k })
              else if not (bp.frames i).is_dirty
              then frame (record bp { order = rest; page_table = delete k bp.page_table }) i
              else if (written i).1
              then frame (record (after i rest) { page_table = delete k bp.page_table }) i
              else write_failed (record (after i rest) { order = record_access rest k }))
      unfolding victim_loop set_frame
      victim_found k i rest e here = ground (arith, e, here)

    -- The frames after a write have the same pins.
    after-pins :
        (fuel : ℕ) (bp : BufferPool D) (i : ℕ) (order : List ℕ) (k : ℕ)
        → pins (after fuel bp i order) k ≡ pins bp k
    unfolding set_frame
    after-pins fuel bp i order k = elim (Bool-cases (nat_eq k i)) [
      | inl e ↦ ground (arith, e, ap (λ n. pins bp n) ((nat_eq_iff k i).0 e))
      | inr e ↦ ground (arith, e)
    ]

    victim_loop-zero : (bp : BufferPool D) → victim_loop device compute_checksum zero bp ≡ spinning
    unfolding victim_loop
    victim_loop-zero bp = refl

    frames_apart :
        (bp : BufferPool D) (i : ℕ)
        → is_pinned (pins bp i) ≡ false
        → pins bp j ≡ p
        → is_pinned p ≡ true
        → nat_eq i j ≡ false
    frames_apart bp i free same pinned = elim (Bool-cases (nat_eq i j)) [
      | inl e ↦ ground (arith, free, same, pinned, ap (pins bp) ((nat_eq_iff i j).0 e))
      | inr e ↦ e
    ]

    keys_apart :
        (table : Map ℕ ℕ) (k i : ℕ)
        → lookup k table ≡ some i
        → lookup id table ≡ some j
        → nat_eq i j ≡ false
        → nat_eq k id ≡ false
    keys_apart table k i found here apart = elim (Bool-cases (nat_eq k id)) [
      | inl e ↦ ground (
        arith,
        found,
        here,
        apart,
        nat_eq_iff i j,
        ap (λ n. lookup n table) ((nat_eq_iff k id).0 e),
      )
      | inr e ↦ e
    ]

    after_table :
        (bp : BufferPool D) (i : ℕ) (order : List ℕ) (fuel : ℕ)
        → lookup id bp.page_table ≡ some j
        → lookup id (after fuel bp i order).page_table ≡ some j
    unfolding set_frame
    after_table bp i order fuel here = here

    pub victim_loop-Spared :
        (fuel : ℕ) (bp : BufferPool D)
        → lookup id bp.page_table ≡ some j
        → pins bp j ≡ p
        → is_pinned p ≡ true
        → Spared (victim_loop device compute_checksum fuel bp)
    victim_loop-Spared zero bp here same pinned = subst Spared (sym (victim_loop-zero bp)) tt
    victim_loop-Spared (suc fuel) bp here same pinned = elim (Option-cases (evict bp.order)) [
      | inl e ↦ subst Spared (sym (victim_none fuel bp e)) (here, same)
      | inr ((k, rest), e) ↦ elim (Option-cases (lookup k bp.page_table)) [
        | inl away ↦
            subst Spared (sym (victim_unknown fuel bp k rest e away))
              (victim_loop-Spared fuel (record bp { order = rest }) here same pinned)
        | inr (i, found) ↦
            subst Spared (sym (victim_found fuel bp k i rest e found))
              (elim (Bool-cases (is_pinned (bp.frames i).pin_count)) [
                | inl held ↦ rw held (
                    victim_loop-Spared fuel (record bp { order = record_access rest k }) here same
                      pinned)
                | inr free ↦
                    let other = frames_apart bp i free same pinned in
                    let left : lookup id (delete k bp.page_table) ≡ some j = ground (
                      arith,
                      here,
                      lookup-delete k id bp.page_table,
                      keys_apart bp.page_table k i found here other,
                    ) in
                    rw free (
                      if-Spared (not (bp.frames i).is_dirty)
                        (frame (record bp { order = rest; page_table = delete k bp.page_table }) i)
                        (if (written fuel bp i).1
                          then frame
                              (record (after fuel bp i rest) {
                                page_table = delete k bp.page_table;
                              })
                              i
                          else write_failed
                              (record (after fuel bp i rest) { order = record_access rest k }))
                        (other, left, same)
                        (if-Spared ((written fuel bp i).1)
                          (frame
                            (record (after fuel bp i rest) { page_table = delete k bp.page_table })
                            i)
                          (write_failed
                            (record (after fuel bp i rest) { order = record_access rest k }))
                          (other, left, after-pins fuel bp i rest j ∙ same)
                          (after_table bp i rest fuel here, after-pins fuel bp i rest j ∙ same)))
              ])
      ]
    ]
