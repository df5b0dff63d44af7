-- ===== src/Page/Record.antt =====
-- The record layout that `Write` and `restoreWrite` of db.go lay down in a slotted page, and that
-- `Read`, `Scan` and `compactPage` take apart: transaction id, expiry, two lengths, key, value.
use ultimate_db.Prelude.{
  ℕ, ◌+◌, ◌%◌, ◌^◌, ◌≤◌, ◌<◌, ◌≡◌, ◌∙◌, sym, inl, ◌⊎◌, List, arith, length, Option, none, some,
  ◌&&◌, leb, if◌then◌else◌, ◌-◌,
}
use ultimate_db.Memory.{
  Memory, Agree, get_word, put_word, read_bytes, write_bytes, get_word-ext, read_bytes-ext,
  get-put_self, get-put_outside, get-write_outside, read-write_self, read-write_outside,
  write_bytes-outside, put_word-outside,
}
use ultimate_db.Page.{u32, page_size, Slot}

pub record Record : Type 0 where
  pub txn_id : ℕ
  pub expires_at : ℕ
  pub key : List ℕ
  pub value : List ℕ

abbrev pub record_size : Record → ℕ
record_size r = 24 + length r.key + length r.value

put_header : Memory → ℕ → Record → Memory
put_header m at r =
    put_word 4
      (put_word 4 (put_word 8 (put_word 8 m at r.txn_id) (at + 8) r.expires_at) (at + 16)
        (u32 (length r.key)))
      (at + 20) (u32 (length r.value))

unfoldable pub put_record : Memory → ℕ → Record → Memory
unfolding put_header
put_record m at r =
    write_bytes (write_bytes (put_header m at r) (at + 24) r.key) (at + 24 + length r.key) r.value

-- The bytes at `at` are the record `r`.
pub record RecordAt (m : Memory) (at : ℕ) (r : Record) : Type 0 where
  pub txn : get_word 8 m at ≡ r.txn_id
  pub expiry : get_word 8 m (at + 8) ≡ r.expires_at
  pub key_length : get_word 4 m (at + 16) ≡ length r.key
  pub value_length : get_word 4 m (at + 20) ≡ length r.value
  pub key_bytes : read_bytes m (at + 24) (length r.key) ≡ r.key
  pub value_bytes : read_bytes m (at + 24 + length r.key) (length r.value) ≡ r.value

-- A record whose fields fit their words.
pub record Fits (r : Record) : Type 0 where
  pub txn : r.txn_id < 2 ^ 64
  pub expiry : r.expires_at < 2 ^ 64
  pub size : record_size r < 2 ^ 31

module _ (m : Memory) (at : ℕ) (r : Record) where
  get_word-put_record :
      (w i : ℕ)
      → i + w ≤ at + 24
      → get_word w (put_record m at r) i ≡ get_word w (put_header m at r) i
  unfolding put_record
  get_word-put_record w i h =
      get-write_outside w _ (at + 24 + length r.key) r.value i (inl (omega arith))
      ∙ get-write_outside w _ (at + 24) r.key i (inl (omega arith))

  key-put_record : read_bytes (put_record m at r) (at + 24) (length r.key) ≡ r.key
  unfolding put_record
  key-put_record =
      read-write_outside _ (at + 24 + length r.key) r.value (at + 24) (length r.key)
        (inl (omega arith))
      ∙ read-write_self _ (at + 24) r.key

  value-put_record :
      read_bytes (put_record m at r) (at + 24 + length r.key) (length r.value) ≡ r.value
  unfolding put_record
  value-put_record = read-write_self _ (at + 24 + length r.key) r.value

  pub put_record-RecordAt : Fits r → RecordAt (put_record m at r) at r
  unfolding put_header
  put_record-RecordAt f = record {
    txn =
        get_word-put_record 8 at (omega arith)
        ∙ get-put_outside 8 _ (at + 20) 4 _ at (inl (omega arith))
        ∙ get-put_outside 8 _ (at + 16) 4 _ at (inl (omega arith))
        ∙ get-put_outside 8 _ (at + 8) 8 _ at (inl (omega arith))
        ∙ get-put_self 8 m at r.txn_id (omega (arith, f.txn));
    expiry =
        get_word-put_record 8 (at + 8) (omega arith)
        ∙ get-put_outside 8 _ (at + 20) 4 _ (at + 8) (inl (omega arith))
        ∙ get-put_outside 8 _ (at + 16) 4 _ (at + 8) (inl (omega arith))
        ∙ get-put_self 8 _ (at + 8) r.expires_at (omega (arith, f.expiry));
    key_length =
        get_word-put_record 4 (at + 16) (omega arith)
        ∙ get-put_outside 4 _ (at + 20) 4 _ (at + 16) (inl (omega arith))
        ∙ get-put_self 4 _ (at + 16) _ (omega (arith, f.size))
        ∙ omega (arith, f.size);
    value_length =
        get_word-put_record 4 (at + 20) (omega arith)
        ∙ get-put_self 4 _ (at + 20) _ (omega (arith, f.size))
        ∙ omega (arith, f.size);
    key_bytes = key-put_record;
    value_bytes = value-put_record;
  }

  pub put_record-outside : (i : ℕ) → (i < at) ⊎ (at + record_size r ≤ i) → put_record m at r i ≡ m i
  unfolding put_record put_header
  put_record-outside i h =
      write_bytes-outside _ (at + 24 + length r.key) r.value i (omega arith)
      ∙ write_bytes-outside _ (at + 24) r.key i (omega arith)
      ∙ put_word-outside 4 _ (at + 20) _ i (omega arith)
      ∙ put_word-outside 4 _ (at + 16) _ i (omega arith)
      ∙ put_word-outside 8 _ (at + 8) _ i (omega arith)
      ∙ put_word-outside 8 _ at _ i (omega arith)

-- A record is read the same from any memory that agrees on its bytes.
pub RecordAt-ext :
    {m m' : Memory} (at : ℕ) (r : Record)
    → Agree at (at + record_size r) m m'
    → RecordAt m at r
    → RecordAt m' at r
RecordAt-ext {m} {m'} at r same h = record {
  txn = word 8 at (omega arith) (omega arith) ∙ h.txn;
  expiry = word 8 (at + 8) (omega arith) (omega arith) ∙ h.expiry;
  key_length = word 4 (at + 16) (omega arith) (omega arith) ∙ h.key_length;
  value_length = word 4 (at + 20) (omega arith) (omega arith) ∙ h.value_length;
  key_bytes = bytes (at + 24) (length r.key) (omega arith) (omega arith) ∙ h.key_bytes;
  value_bytes =
      bytes (at + 24 + length r.key) (length r.value) (omega arith) (omega arith) ∙ h.value_bytes;
}
  where
    word : (w i : ℕ) → at ≤ i → i + w ≤ at + record_size r → get_word w m' i ≡ get_word w m i
    word w i p q = get_word-ext w i (λ j a b. sym (same j (omega arith) (omega arith)))

    bytes : (i n : ℕ) → at ≤ i → i + n ≤ at + record_size r → read_bytes m' i n ≡ read_bytes m i n
    bytes i n p q = read_bytes-ext i n (λ j a b. sym (same j (omega arith) (omega arith)))

-- `recordSlice := page.Data[slot.Offset : slot.Offset+slot.Length]` and the fields cut out of it;
-- `none` is Go's panic on a slice out of range. The sums wrap as uint16 and uint32 do, and a slice
-- of a slice may reach to the end of the page, the capacity of `recordSlice`.
unfoldable pub record_at : Memory → Slot → Option Record
record_at m s =
    let last = (s.offset + s.length) % 2 ^ 16 in
    let capacity = page_size - s.offset in
    let key_end = u32 (24 + get_word 4 m (s.offset + 16)) in
    let value_end = u32 (key_end + get_word 4 m (s.offset + 20)) in
    if leb s.offset last
      && leb last page_size
      && leb 24 capacity
      && leb 24 key_end
      && leb key_end capacity
      && leb key_end value_end
      && leb value_end capacity
    then some (record {
      txn_id = get_word 8 m s.offset;
      expires_at = get_word 8 m (s.offset + 8);
      key = read_bytes m (s.offset + 24) (key_end - 24);
      value = read_bytes m (s.offset + key_end) (value_end - key_end);
    })
    else none

-- A slot that frames a record is decoded to that record, with no panic.
pub record_at-RecordAt :
    (m : Memory) (s : Slot) (r : Record)
    → RecordAt m s.offset r
    → s.length ≡ record_size r
    → s.offset + record_size r ≤ page_size
    → record_at m s ≡ some r
unfolding record_at
record_at-RecordAt m s r h e fits = ground arith
