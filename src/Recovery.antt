-- ===== src/Recovery.antt =====
-- recovery.go: the passes over the log at start-up, on the bytes of the file.
pub mod Frames
pub mod Redo
pub mod Restart
pub mod Torn
pub mod Analysis
pub mod Undo
use ultimate_db.Prelude.{
  ℕ, zero, suc, ◌+◌, ◌%◌, ◌^◌, Bool, ◌||◌, Option, none, some, List, [], ◌∷◌, ◌++◌, length, take,
  drop, nat_eq, ltb, leb, if◌then◌else◌, Map, lookup, insert, delete, nat_key,
}
use ultimate_db.Bytes.{le_decode}
use ultimate_db.Wal.{log_type_begin, log_type_update, log_type_commit, log_type_abort, log_type_clr}

-- io.ReadFull: `eof` only if nothing was read.
pub data ReadFull : Type 0 where
  eof unexpected_eof : ReadFull
  full : List ℕ → List ℕ → ReadFull

unfoldable pub read_full : ℕ → List ℕ → ReadFull
read_full n bs =
    if leb n (length bs)
    then full (take n bs) (drop n bs)
    else if nat_eq (length bs) 0
    then eof
    else unexpected_eof

pub data Fault : Type 0 where
  short_read corrupted_payload crc_mismatch not_restored : Fault

-- `out_of_fuel` is not an outcome of the code.
pub data Outcome {ℓ} (A : Type ℓ) : Type ℓ where
  done : A → Outcome A
  failed : Fault → Outcome A
  panicked out_of_fuel : Outcome A

-- headerBuf[off:off+n] as a little-endian number
unfoldable pub field : List ℕ → ℕ → ℕ → ℕ
field h off n = le_decode (take n (drop off h))

abbrev pub lsn_of : List ℕ → ℕ
lsn_of h = field h 4 8

abbrev pub txn_of : List ℕ → ℕ
txn_of h = field h 12 8

abbrev pub prev_of : List ℕ → ℕ
prev_of h = field h 20 8

abbrev pub type_of : List ℕ → ℕ
type_of h = field h 28 1

abbrev pub page_of : List ℕ → ℕ
page_of h = field h 29 8

abbrev pub key_length : List ℕ → ℕ
key_length h = field h 37 4

abbrev pub old_length : List ℕ → ℕ
old_length h = field h 41 4

abbrev pub new_length : List ℕ → ℕ
new_length h = field h 45 4

-- kLen+oldLen+newLen, on uint32
abbrev pub payload_length : List ℕ → ℕ
payload_length h = (key_length h + old_length h + new_length h) % 2 ^ 32

abbrev pub ActiveTable : Type 0
ActiveTable = Map ℕ ℕ

-- The switch of the analysis pass.
unfoldable pub track : ℕ → ℕ → ℕ → ActiveTable → ActiveTable
track log_type txn lsn active =
    if nat_eq log_type log_type_begin
    then insert txn lsn active
    else if nat_eq log_type log_type_update || nat_eq log_type log_type_clr
    then insert txn lsn active
    else if nat_eq log_type log_type_commit || nat_eq log_type log_type_abort
    then delete txn active
    else active

module _ (crc : List ℕ → ℕ) where
  -- What a round does with a frame whose bytes are all there.
  abbrev pub check_frame : List ℕ → List ℕ → ActiveTable → Outcome ActiveTable
  check_frame h payload active =
      if nat_eq (crc (drop 4 h ++ payload)) (field h 0 4)
      then done (track (type_of h) (txn_of h) (lsn_of h) active)
      else failed crc_mismatch

  unfoldable pub analysis_loop : ℕ → List ℕ → ActiveTable → Outcome ActiveTable
  unfolding read_full
  analysis_loop zero file active = out_of_fuel
  analysis_loop (suc fuel) file active = elim (read_full 49 file) [
    | eof ↦ done active
    | unexpected_eof ↦ failed short_read
    | full h rest ↦ elim (read_full (payload_length h) rest) [
      | eof ↦ failed corrupted_payload
      | unexpected_eof ↦ failed corrupted_payload
      | full payload next ↦ elim (check_frame h payload active) [
        | done active' ↦ analysis_loop fuel next active'
        | failed f ↦ failed f
        | panicked ↦ panicked
        | out_of_fuel ↦ out_of_fuel
      ]
    ]
  ]

  -- Every round takes 49 bytes at least, so the length of the file is fuel enough.
  unfoldable pub run_analysis_pass : List ℕ → Outcome ActiveTable
  unfolding analysis_loop
  run_analysis_pass file = analysis_loop (suc (length file)) file []

-- The redo pass, over a store of pages with `restoreWrite(0, math.MaxInt64, page, key, value)`.
module _ {S : Type 0} (restore_write : ℕ → ℕ → List ℕ → List ℕ → S → Option S) where
  -- `none` of `restore_write` is its error; the slices panic if they end past the payload.
  unfoldable pub redo_frame : List ℕ → List ℕ → S → Outcome S
  redo_frame h payload s =
      if nat_eq (type_of h) log_type_update || nat_eq (type_of h) log_type_clr
      then (if ltb (length payload) (key_length h)
            || ltb (length payload) ((key_length h + old_length h) % 2 ^ 32)
          then panicked
          else elim (restore_write 0 (page_of h) (take (key_length h) payload)
              (drop ((key_length h + old_length h) % 2 ^ 32) payload) s) [
                | none ↦ failed not_restored
                | some s' ↦ done s'
              ])
      else done s

  unfoldable pub redo_loop : ℕ → List ℕ → S → Outcome S
  unfolding read_full redo_frame
  redo_loop zero file s = out_of_fuel
  redo_loop (suc fuel) file s = elim (read_full 49 file) [
    | eof ↦ done s
    | unexpected_eof ↦ failed short_read
    | full h rest ↦ elim (read_full (payload_length h) rest) [
      | eof ↦ failed short_read
      | unexpected_eof ↦ failed short_read
      | full payload next ↦ elim (redo_frame h payload s) [
        | done s' ↦ redo_loop fuel next s'
        | failed f ↦ failed f
        | panicked ↦ panicked
        | out_of_fuel ↦ out_of_fuel
      ]
    ]
  ]

  unfoldable pub run_redo_pass : List ℕ → S → Outcome S
  unfolding redo_loop
  run_redo_pass file s = redo_loop (suc (length file)) file s
