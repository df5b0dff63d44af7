-- ===== src/Wal/Frames.antt =====
-- The frames of the log: sizes, and where the fields of a header are.
use ultimate_db.Prelude.{
  ℕ, ◌+◌, ◌^◌, ◌<◌, ◌≡◌, refl, ◌∙◌, ap, List, ◌++◌, length, drop, length-append, append_assoc,
  arith,
}
use ultimate_db.Bytes.{le_encode}
use ultimate_db.Wal.{WalEntry, entry_size, payload, header, head, write_entry}

-- The numbers of a record fit their fields.
pub record Fits (e : WalEntry) : Type 0 where
  pub lsn : e.lsn < 2 ^ 64
  pub txn_id : e.txn_id < 2 ^ 64
  pub prev_lsn : e.prev_lsn < 2 ^ 64
  pub log_type : e.log_type < 256
  pub page_id : e.page_id < 2 ^ 64
  pub size : entry_size e < 2 ^ 32

parts : (e : WalEntry) → payload e ≡ e.key ++ (e.old_value ++ e.new_value)
unfolding payload
parts e = refl

pub length-payload : (e : WalEntry) → 49 + length (payload e) ≡ entry_size e
length-payload e = ground (
  arith,
  ap length (parts e),
  length-append e.key (e.old_value ++ e.new_value),
  length-append e.old_value e.new_value,
)

module _ (crc : List ℕ → ℕ) (e : WalEntry) where
  pub length-head : length (head crc e) ≡ 49
  unfolding head header le_encode
  length-head = refl

  pub length-write_entry : length (write_entry crc e) ≡ entry_size e
  unfolding write_entry
  length-write_entry =
      length-append (head crc e) (payload e) ∙ omega (arith, length-head, length-payload e)

  pub append-write_entry :
      (more : List ℕ) → write_entry crc e ++ more ≡ head crc e ++ (payload e ++ more)
  unfolding write_entry
  append-write_entry more = append_assoc (head crc e) (payload e) more

  pub drop-head : drop 4 (head crc e) ≡ header e
  unfolding head header le_encode
  drop-head = refl
