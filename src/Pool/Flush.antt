-- ===== src/Pool/Flush.antt =====
-- FlushAll of the buffer pool keeps the table, the order and the pins.
use ultimate_db.Prelude.{
  ℕ, ◌≡◌, refl, ◌∙◌, ap, Bool, true, false, ◌&&◌, some, [], ◌∷◌, arith, inl, inr, Bool-cases,
  if◌then◌else◌, nat_eq, nat_eq_iff, ℤ, lookup, nat_key, Map,
}
use ultimate_db.Memory.{Memory}
use ultimate_db.Pool.{BlockDevice, BufferPool, set_frame, flush_frame, flush_pages}

module _ {D : Type 0} where
  abbrev pub pins : BufferPool D → ℕ → ℤ
  pins bp j = (bp.frames j).pin_count

  -- No two pages share a frame.
  abbrev pub Apart : BufferPool D → Type 0
  Apart bp = (a b i : ℕ) → lookup a bp.page_table ≡ some i → lookup b bp.page_table ≡ some i → a ≡ b

  -- What the flush keeps.
  pub record Flushed (bp bp' : BufferPool D) : Type 0 where
    pub table : bp'.page_table ≡ bp.page_table
    pub free : bp'.free_list ≡ bp.free_list
    pub order_kept : bp'.order ≡ bp.order
    pub pins_kept : (j : ℕ) → pins bp' j ≡ pins bp j

module _ {D : Type 0} (device : BlockDevice D) (compute_checksum : Memory → ℕ) where
  flush_frame-Flushed :
      (bp : BufferPool D) (i : ℕ) → Flushed bp (flush_frame device compute_checksum bp i).0
  unfolding flush_frame set_frame
  flush_frame-Flushed bp i = record {
    table = refl;
    free = refl;
    order_kept = refl;
    pins_kept = λ j. elim (Bool-cases (nat_eq j i)) [
      | inl e ↦ ground (arith, e, ap (λ k. pins bp k) ((nat_eq_iff j i).0 e))
      | inr e ↦ ground (arith, e)
    ];
  }

  if-Flushed :
      (bp : BufferPool D) (c : Bool) (x y : BufferPool D × Bool)
      → Flushed bp x.0
      → Flushed bp y.0
      → Flushed bp (if c then x else y).0
  if-Flushed bp true x y h k = h
  if-Flushed bp false x y h k = k

  pub flush_pages-Flushed :
      (bp : BufferPool D) (table : Map ℕ ℕ)
      → Flushed bp (flush_pages device compute_checksum bp table).0
  unfolding flush_pages
  flush_pages-Flushed bp [] = record {
    table = refl;
    free = refl;
    order_kept = refl;
    pins_kept = λ j. refl;
  }
  flush_pages-Flushed bp ((id, i) ∷ table) =
      let a = flush_frame-Flushed bp i in
      let b = flush_pages-Flushed (flush_frame device compute_checksum bp i).0 table in
      if-Flushed bp (bp.frames i).is_dirty
        (
          (flush_pages device compute_checksum (flush_frame device compute_checksum bp i).0
              table).0,
          (flush_frame device compute_checksum bp i).1
              && (flush_pages device compute_checksum (flush_frame device compute_checksum bp i).0
                  table).1,
        )
        (flush_pages device compute_checksum bp table)
        (record {
          table = b.table ∙ a.table;
          free = b.free ∙ a.free;
          order_kept = b.order_kept ∙ a.order_kept;
          pins_kept = λ j. b.pins_kept j ∙ a.pins_kept j;
        })
        (flush_pages-Flushed bp table)
