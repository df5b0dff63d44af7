-- ===== src/Pool/Pinned.antt =====
-- FetchPage never gives away the frame of a pinned page.
use mathlib.Core.Path.{subst}
use ultimate_db.Prelude.{
  ℕ, ◌*◌, ◌≡◌, refl, ◌∙◌, ap, sym, Bool, true, false, ◌&&◌, none, some, List, [], ◌∷◌, arith, inl,
  inr, All, Bool-cases, Option-cases, if◌then◌else◌, nat_eq, nat_eq_iff, ltb, leb, ℤ, lookup,
  lookup-insert, insert, pos, ◌++◌, nat_key,
}
use ultimate_db.Memory.{Memory}
use ultimate_db.Pool.{
  record_access, BlockDevice, Frame, BufferPool, pin, is_pinned, Available, frame, write_failed,
  exhausted, spinning, Fetched, page, fetch_failed, endless, set_frame, flush_pages, flush_all,
  dirty_count, victim_loop, take_frame, get_available_frame, load_page, fetch_page,
}
use ultimate_db.Pool.Flush.{pins, Apart, Flushed, flush_pages-Flushed}
use ultimate_db.Pool.Victims.{Spared, if-Spared, victim_loop-Spared}

module _ {D : Type 0} (device : BlockDevice D) (compute_checksum : Memory → ℕ) where
  module _ (id j : ℕ) (p : ℤ) where
    abbrev NotFree : List ℕ → Type 0
    NotFree free = All (λ i. nat_eq i j ≡ false) free

    take_frame-Spared :
        (fuel : ℕ) (bp : BufferPool D)
        → NotFree bp.free_list
        → lookup id bp.page_table ≡ some j
        → pins bp j ≡ p
        → is_pinned p ≡ true
        → Spared device compute_checksum id j p (take_frame device compute_checksum fuel bp)
    unfolding take_frame
    take_frame-Spared fuel bp apart here same pinned = go bp.free_list apart
      where
        go :
            (free : List ℕ)
            → NotFree free
            → Spared device compute_checksum id j p (elim free [
              | [] ↦ victim_loop device compute_checksum fuel bp
              | i ∷ free ↦ frame (record bp { free_list = free }) i
            ])
        go [] apart = victim_loop-Spared device compute_checksum id j p fuel bp here same pinned
        go (i ∷ free) apart = (apart.0, here, same)

    flushed :
        (bp bp' : BufferPool D)
        → Flushed bp bp'
        → NotFree bp.free_list
        → lookup id bp.page_table ≡ some j
        → pins bp j ≡ p
        → NotFree bp'.free_list × (lookup id bp'.page_table ≡ some j) × (pins bp' j ≡ p)
    flushed bp bp' f apart here same =
        (subst NotFree (sym f.free) apart, ap (lookup id) f.table ∙ here, f.pins_kept j ∙ same)

    get_available_frame-Spared :
        (fuel : ℕ) (bp : BufferPool D)
        → NotFree bp.free_list
        → lookup id bp.page_table ≡ some j
        → pins bp j ≡ p
        → is_pinned p ≡ true
        → Spared device compute_checksum id j p
            (get_available_frame device compute_checksum fuel bp)
    unfolding get_available_frame flush_all
    get_available_frame-Spared fuel bp apart here same pinned =
        let (a, h, s) =
          flushed bp (flush_pages device compute_checksum bp bp.page_table).0
            (flush_pages-Flushed device compute_checksum bp bp.page_table) apart here same in
        if-Spared device compute_checksum id j p
          (ltb 0 bp.pool_size && leb (4 * bp.pool_size) (5 * dirty_count bp bp.page_table))
          (take_frame device compute_checksum fuel
            (flush_pages device compute_checksum bp bp.page_table).0)
          (take_frame device compute_checksum fuel bp)
          (take_frame-Spared fuel (flush_pages device compute_checksum bp bp.page_table).0 a h s
            pinned)
          (take_frame-Spared fuel bp apart here same pinned)

    -- The same of FetchPage.
    abbrev pub Untouched : Fetched D → Type 0
    Untouched (page bp i) =
        (nat_eq i j ≡ false) × (lookup id bp.page_table ≡ some j) × (pins bp j ≡ p)
    Untouched (fetch_failed bp) = (lookup id bp.page_table ≡ some j) × (pins bp j ≡ p)
    Untouched endless = Unit

    if-Untouched :
        (c : Bool) (x y : Fetched D) → Untouched x → Untouched y → Untouched (if c then x else y)
    if-Untouched true x y h k = h
    if-Untouched false x y h k = k

    pins-set_frame :
        (bp : BufferPool D) (i : ℕ) (f : Frame)
        → nat_eq i j ≡ false
        → pins (set_frame bp i f) j ≡ pins bp j
    unfolding set_frame
    pins-set_frame bp i f other = ground (arith, other, nat_eq_iff i j, nat_eq_iff j i)

    load_page-Untouched :
        (bp : BufferPool D) (i k : ℕ)
        → nat_eq k id ≡ false
        → nat_eq i j ≡ false
        → lookup id bp.page_table ≡ some j
        → pins bp j ≡ p
        → Untouched (load_page device compute_checksum bp i k)
    unfolding load_page set_frame
    load_page-Untouched bp i k apart other here same =
        let f : Frame = record {
          id = k;
          pin_count = pos 1;
          is_dirty = false;
          bytes = (device.read_block bp.disk k).0;
        } in
        if-Untouched _
          (fetch_failed (record (set_frame bp i f) { free_list = bp.free_list ++ i ∷ [] }))
          (page
            (record (set_frame bp i f) {
              page_table = insert k i bp.page_table;
              order = record_access bp.order k;
            })
            i)
          (here, pins-set_frame bp i f other ∙ same)
          (
            other,
            lookup-insert k id i bp.page_table ∙ ground (arith, apart, here),
            pins-set_frame bp i f other ∙ same,
          )

    abbrev loaded : ℕ → Available D → Fetched D
    loaded k (frame bp i) = load_page device compute_checksum bp i k
    loaded k (write_failed bp) = fetch_failed bp
    loaded k (exhausted bp) = fetch_failed bp
    loaded k spinning = endless

    loaded-Untouched :
        (k : ℕ) (a : Available D)
        → nat_eq k id ≡ false
        → Spared device compute_checksum id j p a
        → Untouched (loaded k a)
    loaded-Untouched k (frame bp i) apart h = load_page-Untouched bp i k apart h.0 h.1 h.2
    loaded-Untouched k (write_failed bp) apart h = h
    loaded-Untouched k (exhausted bp) apart h = h
    loaded-Untouched k spinning apart h = tt

    fetch_hit_lem :
        (fuel : ℕ) (bp : BufferPool D) (k i : ℕ)
        → lookup k bp.page_table ≡ some i
        → fetch_page device compute_checksum fuel bp k
          ≡ page
              (set_frame
                (record bp { order = record_access bp.order k })
                i
                (record (bp.frames i) { pin_count = pin ((bp.frames i).pin_count) }))
              i
    unfolding fetch_page
    fetch_hit_lem fuel bp k i e = ground (arith, e)

    kept_table :
        (bp : BufferPool D) (k i : ℕ) (f : Frame)
        → lookup id bp.page_table ≡ some j
        → lookup id (set_frame (record bp { order = record_access bp.order k }) i f).page_table
          ≡ some j
    unfolding set_frame
    kept_table bp k i f here = here

    fetch_hit :
        (fuel : ℕ) (bp : BufferPool D) (k i : ℕ)
        → lookup k bp.page_table ≡ some i
        → nat_eq i j ≡ false
        → lookup id bp.page_table ≡ some j
        → pins bp j ≡ p
        → Untouched (fetch_page device compute_checksum fuel bp k)
    fetch_hit fuel bp k i e other here same =
        let f : Frame = record (bp.frames i) { pin_count = pin ((bp.frames i).pin_count) } in
        subst Untouched (sym (fetch_hit_lem fuel bp k i e)) (
          other,
          kept_table bp k i f here,
          pins-set_frame (record bp { order = record_access bp.order k }) i f other ∙ same,
        )

    fetch_miss :
        (fuel : ℕ) (bp : BufferPool D) (k : ℕ)
        → lookup k bp.page_table ≡ none
        → fetch_page device compute_checksum fuel bp k
          ≡ loaded k (get_available_frame device compute_checksum fuel bp)
    unfolding fetch_page
    fetch_miss fuel bp k e = ground (arith, e)

-- FetchPage of another page never gives away the frame of a pinned page: that page stays in its
-- frame with its pins, whether the other page is in the pool, a frame is free, a page is evicted,
-- dirty pages are flushed first, or the call fails.
pub fetch_page-Untouched :
    {D : Type 0} (device : BlockDevice D) (compute_checksum : Memory → ℕ) (fuel : ℕ)
    (bp : BufferPool D) (id j k : ℕ)
    → Apart bp
    → All (λ i. nat_eq i j ≡ false) bp.free_list
    → lookup id bp.page_table ≡ some j
    → is_pinned (bp.frames j).pin_count ≡ true
    → nat_eq k id ≡ false
    → Untouched device compute_checksum id j
        (bp.frames j).pin_count
        (fetch_page device compute_checksum fuel bp k)
fetch_page-Untouched device compute_checksum fuel bp id j k apart free here pinned other =
    elim (Option-cases (lookup k bp.page_table)) [
      | inl away ↦
          subst (Untouched device compute_checksum id j (bp.frames j).pin_count)
            (sym (fetch_miss device compute_checksum id j (bp.frames j).pin_count fuel bp k away))
            (loaded-Untouched device compute_checksum id j (bp.frames j).pin_count k
              (get_available_frame device compute_checksum fuel bp) other
              (get_available_frame-Spared device compute_checksum id j (bp.frames j).pin_count fuel
                bp free here refl pinned))
      | inr (i, e) ↦
          fetch_hit device compute_checksum id j (bp.frames j).pin_count fuel bp k i e
            (elim (Bool-cases (nat_eq i j)) [
              | inl same ↦ ground (
                arith,
                other,
                nat_eq_iff k id,
                apart k id j (e ∙ ap some ((nat_eq_iff i j).0 same)) here,
              )
              | inr distinct ↦ distinct
            ])
            here refl
    ]
