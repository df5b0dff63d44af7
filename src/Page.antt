-- ===== src/Page.antt =====
-- The slotted page of storage.go: header accessors and the slot directory. A 32 KB page has its
-- header in bytes 0 to 31, the slot directory from 32 up, and the records from the end down.
pub mod Record
pub mod Place
pub mod Contents
pub mod Init
pub mod Count
pub mod Loop
use ultimate_db.Prelude.{
  ℕ, ◌+◌, ◌*◌, ◌%◌, ◌^◌, Bool, ◌&&◌, Option, none, some, ltb, leb, if◌then◌else◌,
}
use ultimate_db.Memory.{Memory, get_word, put_word}

abbrev pub page_size : ℕ
page_size = 32768

abbrev pub page_header_size : ℕ
page_header_size = 32

abbrev pub u32 : ℕ → ℕ
u32 n = n % 2 ^ 32

unfoldable pub get_checksum : Memory → ℕ
get_checksum m = get_word 4 m 0

unfoldable pub set_checksum : Memory → ℕ → Memory
set_checksum m v = put_word 4 m 0 v

unfoldable pub get_page_type : Memory → ℕ
get_page_type m = get_word 4 m 4

unfoldable pub set_page_type : Memory → ℕ → Memory
set_page_type m v = put_word 4 m 4 v

unfoldable pub get_slot_count : Memory → ℕ
get_slot_count m = get_word 4 m 8

unfoldable pub set_slot_count : Memory → ℕ → Memory
set_slot_count m v = put_word 4 m 8 v

unfoldable pub get_lower_boundary : Memory → ℕ
get_lower_boundary m = get_word 4 m 12

unfoldable pub set_lower_boundary : Memory → ℕ → Memory
set_lower_boundary m v = put_word 4 m 12 v

unfoldable pub get_upper_boundary : Memory → ℕ
get_upper_boundary m = get_word 4 m 16

unfoldable pub set_upper_boundary : Memory → ℕ → Memory
set_upper_boundary m v = put_word 4 m 16 v

unfoldable pub get_next_page_id : Memory → ℕ
get_next_page_id m = get_word 8 m 24

unfoldable pub set_next_page_id : Memory → ℕ → Memory
set_next_page_id m v = put_word 8 m 24 v

-- The loop of `Init` that clears what follows the header.
unfoldable pub clear_body : Memory → Memory
clear_body m i = if leb page_header_size i && ltb i page_size then 0 else m i

unfoldable pub init : Memory → Memory
unfolding set_checksum set_page_type set_slot_count set_lower_boundary set_upper_boundary
    set_next_page_id clear_body
init m =
    let m = set_checksum m 0 in
    let m = set_page_type m 0 in
    let m = set_slot_count m 0 in
    let m = set_lower_boundary m page_header_size in
    let m = set_upper_boundary m page_size in let m = set_next_page_id m 0 in clear_body m

pub record Slot : Type 0 where
  pub offset : ℕ
  pub length : ℕ

-- `none` is the error "slot index out of range".
unfoldable pub get_slot : Memory → ℕ → Option Slot
unfolding get_slot_count
get_slot m idx =
    if leb (get_slot_count m) idx
    then none
    else (let at = u32 (page_header_size + u32 (idx * 4)) in
        some (record { offset = get_word 2 m at; length = get_word 2 m (at + 2) }))

unfoldable pub write_slot : Memory → ℕ → Slot → Memory
write_slot m idx s =
    let at = u32 (page_header_size + u32 (idx * 4)) in
    put_word 2 (put_word 2 m at s.offset) (at + 2) s.length

unfoldable pub is_safe_for_insert : Memory → ℕ → Bool
unfolding get_lower_boundary get_upper_boundary
is_safe_for_insert m required =
    leb (u32 (get_lower_boundary m + 4 + required)) (get_upper_boundary m)
