-- ===== src/Wal.antt =====
-- wal.go: the log's records and the numbers that `Append` gives them. `Append` takes its number
-- under a mutex and sends the record to the flusher after; `append` is a call that no other
-- overlaps, so the flusher writes the records in the order of their numbers.
pub mod Frames
pub mod Appending
use ultimate_db.Prelude.{
  ℕ, ◌+◌, ◌%◌, ◌^◌, Bool, ◌||◌, Option, none, some, List, [], ◌∷◌, ◌++◌, length, nat_eq,
  if◌then◌else◌, Map, lookup, insert, delete, nat_key,
}
use ultimate_db.Bytes.{le_encode}

pub record WalEntry : Type 0 where
  pub lsn : ℕ
  pub txn_id : ℕ
  pub prev_lsn : ℕ
  pub log_type : ℕ
  pub page_id : ℕ
  pub key : List ℕ
  pub old_value : List ℕ
  pub new_value : List ℕ

abbrev pub log_type_begin : ℕ
log_type_begin = 0

abbrev pub log_type_update : ℕ
log_type_update = 1

abbrev pub log_type_commit : ℕ
log_type_commit = 2

abbrev pub log_type_abort : ℕ
log_type_abort = 3

abbrev pub log_type_clr : ℕ
log_type_clr = 4

-- currentLSN, txnPrevLSN, and the bytes of the file.
pub record BatchingWal : Type 0 where
  pub current_lsn : ℕ
  pub txn_prev_lsn : Map ℕ ℕ
  pub file : List ℕ

-- The log of a file that is there already.
abbrev pub new_batching_wal : List ℕ → BatchingWal
new_batching_wal file = record {
  current_lsn = length file % 2 ^ 64;
  txn_prev_lsn = [];
  file = file;
}

abbrev pub entry_size : WalEntry → ℕ
entry_size e = 49 + length e.key + length e.old_value + length e.new_value

unfoldable pub payload : WalEntry → List ℕ
payload e = e.key ++ (e.old_value ++ e.new_value)

-- The bytes 4 to 48 of a frame.
unfoldable pub header : WalEntry → List ℕ
header e =
    le_encode 8 e.lsn
    ++ le_encode 8 e.txn_id
    ++ le_encode 8 e.prev_lsn
    ++ le_encode 1 e.log_type
    ++ le_encode 8 e.page_id
    ++ le_encode 4 (length e.key % 2 ^ 32)
    ++ le_encode 4 (length e.old_value % 2 ^ 32)
    ++ le_encode 4 (length e.new_value % 2 ^ 32)

-- The 49 bytes that a reader takes first.
unfoldable pub head : (List ℕ → ℕ) → WalEntry → List ℕ
head crc e = le_encode 4 (crc (header e ++ payload e)) ++ header e

-- `crc` is crc32.ChecksumIEEE of the standard library.
module _ (crc : List ℕ → ℕ) where
  unfoldable pub write_entry : WalEntry → List ℕ
  unfolding head
  write_entry e = head crc e ++ payload e

  -- The bytes that the flusher leaves for a sequence of records.
  unfoldable pub write_entries : List WalEntry → List ℕ
  write_entries [] = []
  write_entries (e ∷ es) = write_entry e ++ write_entries es

abbrev pub or_zero : Option ℕ → ℕ
or_zero none = 0
or_zero (some v) = v

-- The part of `Append` under the mutex: the record with its number, and the new state.
unfoldable pub assign : BatchingWal → ℕ → ℕ → ℕ → List ℕ → List ℕ → List ℕ → BatchingWal × WalEntry
assign w txn log_type page key old_value new_value =
    let entry : WalEntry = record {
      lsn = w.current_lsn;
      txn_id = txn;
      prev_lsn = or_zero (lookup txn w.txn_prev_lsn);
      log_type = log_type;
      page_id = page;
      key = key;
      old_value = old_value;
      new_value = new_value;
    } in
    (
      record w {
        current_lsn = (w.current_lsn + entry_size entry) % 2 ^ 64;
        txn_prev_lsn =
            if nat_eq log_type log_type_commit || nat_eq log_type log_type_abort
            then delete txn w.txn_prev_lsn
            else insert txn w.current_lsn w.txn_prev_lsn;
      },
      entry,
    )

unfoldable pub append :
    (List ℕ → ℕ) → BatchingWal → ℕ → ℕ → ℕ → List ℕ → List ℕ → List ℕ → BatchingWal × ℕ
unfolding assign
append crc w txn log_type page key old_value new_value =
    let (w', e) = assign w txn log_type page key old_value new_value in
    (record w' { file = w'.file ++ write_entry crc e }, e.lsn)

-- `Checkpoint`: the flusher truncates the file and counts from 0 again.
unfoldable pub checkpoint : BatchingWal → BatchingWal
checkpoint w = record w { current_lsn = 0; file = [] }
