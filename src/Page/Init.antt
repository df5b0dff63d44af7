-- ===== src/Page/Init.antt =====
-- `Init` of storage.go gives a page that holds no record.
use ultimate_db.Prelude.{ℕ, ◌+◌, ◌≤◌, ◌≡◌, ◌∙◌, [], arith}
use ultimate_db.Memory.{Memory, get_word, get_word-ext, get-put_self, get-put_outside}
use ultimate_db.Page.{
  page_size, init, clear_body, get_slot_count, get_lower_boundary, get_upper_boundary,
}
use ultimate_db.Page.Contents.{Holds}

header_kept :
    (m : Memory) (off : ℕ) → off + 4 ≤ 32 → get_word 4 (clear_body m) off ≡ get_word 4 m off
unfolding clear_body
header_kept m off h = get_word-ext 4 off (λ i a b. ground arith)

-- Whatever was in the page, after `Init` it holds no record.
pub init-Holds : (m : Memory) → Holds (init m) []
unfolding init get_slot_count get_lower_boundary get_upper_boundary
init-Holds m = record {
  count =
      header_kept _ 8 (omega arith)
      ∙ get-put_outside 4 _ 24 8 _ 8 (omega arith)
      ∙ get-put_outside 4 _ 16 4 _ 8 (omega arith)
      ∙ get-put_outside 4 _ 12 4 _ 8 (omega arith)
      ∙ get-put_self 4 _ 8 0 (omega arith);
  packed = record {
    lower = lower_is;
    upper = omega (arith, upper_is);
    room = omega (arith, upper_is);
    slots = tt;
  };
}
  where
    lower_is : get_lower_boundary (init m) ≡ 32
    lower_is =
        header_kept _ 12 (omega arith)
        ∙ get-put_outside 4 _ 24 8 _ 12 (omega arith)
        ∙ get-put_outside 4 _ 16 4 _ 12 (omega arith)
        ∙ get-put_self 4 _ 12 32 (omega arith)

    upper_is : get_upper_boundary (init m) ≡ page_size
    upper_is =
        header_kept _ 16 (omega arith)
        ∙ get-put_outside 4 _ 24 8 _ 16 (omega arith)
        ∙ get-put_self 4 _ 16 page_size (omega arith)
