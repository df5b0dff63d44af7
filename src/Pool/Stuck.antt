-- ===== src/Pool/Stuck.antt =====
-- The loop of getAvailableFrame when every page that the evictor tracks is pinned.
use ultimate_db.Prelude.{
  ℕ, zero, suc, ◌*◌, ◌<◌, ◌≡◌, refl, ◌∙◌, ap, true, none, some, List, [], ◌∷◌, length, arith, inl,
  inr, All, Bool-cases, nat_eq, lookup, nat_key,
}
use ultimate_db.Memory.{Memory}
use ultimate_db.Pool.{
  remove, record_access, evict, BlockDevice, BufferPool, is_pinned, spinning, endless, dirty_count,
  victim_loop, take_frame, get_available_frame, fetch_page,
}

All-remove {κ} : (P : ℕ → Type κ) (id : ℕ) (order : List ℕ) → All P order → All P (remove id order)
unfolding remove
All-remove P id [] h = tt
All-remove P id (i ∷ order) h = elim (Bool-cases (nat_eq id i)) [
  | inl e ↦ rw e (All-remove P id order h.1)
  | inr e ↦ rw e (h.0, All-remove P id order h.1)
]

-- The victim and what is left.
evict-All {κ} :
    (P : ℕ → Type κ) (order : List ℕ)
    → 0 < length order
    → All P order
    → (id : ℕ) × (rest : List ℕ) × (evict order ≡ some (id, rest)) × P id × All P rest
unfolding evict
evict-All P [] lt h = ground (arith, lt)
evict-All P (i ∷ []) lt h = (i, [], refl, h.0, tt)
evict-All P (i ∷ (j ∷ order)) lt h =
    let (id, rest, e, p, q) = evict-All P (j ∷ order) (omega arith) h.1 in
    (
      id,
      i ∷ rest,
      ap (λ o. elim o [ none ↦ some (i, []) | some r ↦ some (r.0, i ∷ r.1) ]) e,
      p,
      (h.0, q),
    )

module _ {D : Type 0} (device : BlockDevice D) (compute_checksum : Memory → ℕ) where
  -- The page `id` is in the pool and pinned.
  abbrev pub Pinned : BufferPool D → ℕ → Type 0
  Pinned bp id =
      (i : ℕ) × (lookup id bp.page_table ≡ some i) × (is_pinned (bp.frames i).pin_count ≡ true)

  victim-Pinned :
      (fuel : ℕ) (bp : BufferPool D) (id : ℕ) (rest : List ℕ)
      → evict bp.order ≡ some (id, rest)
      → Pinned bp id
      → victim_loop device compute_checksum (suc fuel) bp
        ≡ victim_loop device compute_checksum fuel (record bp { order = record_access rest id })
  unfolding victim_loop
  victim-Pinned fuel bp id rest e (i, here, pinned) = ground (arith, e, here, pinned)

  victim_loop_spins :
      (fuel : ℕ) (bp : BufferPool D)
      → 0 < length bp.order
      → All (Pinned bp) bp.order
      → victim_loop device compute_checksum fuel bp ≡ spinning
  unfolding victim_loop record_access
  victim_loop_spins zero bp lt h = refl
  victim_loop_spins (suc fuel) bp lt h =
      let (id, rest, e, p, q) = evict-All (Pinned bp) bp.order lt h in
      victim-Pinned fuel bp id rest e p
      ∙ victim_loop_spins fuel (record bp { order = record_access rest id }) (omega arith)
          (p, All-remove (Pinned bp) id rest q)

  frame_spins :
      (fuel : ℕ) (bp : BufferPool D)
      → bp.free_list ≡ []
      → 5 * dirty_count bp bp.page_table < 4 * bp.pool_size
      → victim_loop device compute_checksum fuel bp ≡ spinning
      → get_available_frame device compute_checksum fuel bp ≡ spinning
  unfolding get_available_frame take_frame
  frame_spins fuel bp free clean e = ground (arith, free, clean, e)

  fetch_page_endless :
      (fuel : ℕ) (bp : BufferPool D) (id : ℕ)
      → lookup id bp.page_table ≡ none
      → get_available_frame device compute_checksum fuel bp ≡ spinning
      → fetch_page device compute_checksum fuel bp id ≡ endless
  unfolding fetch_page
  fetch_page_endless fuel bp id away e = ground (arith, away, e)

  -- FetchPage of a page that is not in the pool, when the evictor tracks at least one page, every
  -- page that it tracks is pinned, no frame is free, and fewer than 80% of the frames are dirty, so
  -- that no flush comes first, does not return whatever the fuel, in place of the error for an
  -- exhausted pool.
  pub fetch_page_stuck :
      (fuel : ℕ) (bp : BufferPool D) (id : ℕ)
      → lookup id bp.page_table ≡ none
      → bp.free_list ≡ []
      → 5 * dirty_count bp bp.page_table < 4 * bp.pool_size
      → 0 < length bp.order
      → All (Pinned bp) bp.order
      → fetch_page device compute_checksum fuel bp id ≡ endless
  fetch_page_stuck fuel bp id away free clean lt h =
      fetch_page_endless fuel bp id away
        (frame_spins fuel bp free clean (victim_loop_spins fuel bp lt h))
