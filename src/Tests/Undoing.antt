-- ===== src/Tests/Undoing.antt =====
-- The undo pass on a log with one open transaction; the checksum is 0.
use mathlib.Core.Path.{subst}
use ultimate_db.Prelude.{
  ℕ, ◌+◌, ◌≡◌, ◌≢◌, refl, List, [], ◌∷◌, some, Option, lookup, nat_key, nat_eq, arith, take, drop,
  inl, inr, Bool-cases,
}
use ultimate_db.Bytes.{le_encode, le_decode}
use ultimate_db.Wal.{WalEntry, write_entry, write_entries, head, header, payload}
use ultimate_db.Recovery.{done, out_of_fuel, read_full, field}
use ultimate_db.Recovery.Undo.{frame_at, undo_loop, undo_frame, run_undo_pass}
use ultimate_db.Recovery.Undo.Undone.{Records, no_records, record_at, undo_all, undo_loop-undo_all}
use ultimate_db.Recovery.Undo.Ends.{Chained, start, linked, AllChained, run_undo_pass_ends}

abbrev no_sum : List ℕ → ℕ
no_sum bs = 0

-- An update of key "a" by transaction 7 from `old` to "x".
abbrev updated : ℕ → ℕ → ℕ → WalEntry
updated lsn prev old = record {
  lsn = lsn;
  txn_id = 7;
  prev_lsn = prev;
  log_type = 1;
  page_id = 2;
  key = b'a' ∷ [];
  old_value = old ∷ [];
  new_value = b'x' ∷ [];
}

-- Each record has 52 bytes; the first is another transaction's.
abbrev log : List ℕ
log = write_entries no_sum (updated 0 0 b'o' ∷ updated 52 0 b'p' ∷ updated 104 52 b'q' ∷ [])

abbrev header_at : ℕ → List ℕ
header_at off = take 49 (drop off log)

abbrev payload_at : ℕ → List ℕ
payload_at off = take 3 (drop (off + 49) log)

frame_at_test :
    (frame_at 52 log ≡ some (header_at 52, payload_at 52))
    × (frame_at 104 log ≡ some (header_at 104, payload_at 104))
unfolding frame_at read_full field le_decode write_entries write_entry head header payload le_encode
frame_at_test = (refl, refl)

log_records : Records log 104 ((header_at 104, payload_at 104) ∷ (header_at 52, payload_at 52) ∷ [])
unfolding field le_decode write_entries write_entry head header payload le_encode
log_records =
    record_at 104 (header_at 104) (payload_at 104) ((header_at 52, payload_at 52) ∷ []) refl
      frame_at_test.1
      (record_at 52 (header_at 52) (payload_at 52) [] refl frame_at_test.0 no_records)

-- Pages as the list of the values written to them.
abbrev write_down : ℕ → ℕ → List ℕ → List ℕ → List (List ℕ) → Option (List (List ℕ))
write_down txn page key val values = some (val ∷ values)

undo_loop-undo_all_example :
    undo_loop write_down 3 log ((7, 104) ∷ []) []
    ≡ undo_all write_down 7
        ((header_at 104, payload_at 104) ∷ (header_at 52, payload_at 52) ∷ [])
        []
undo_loop-undo_all_example =
    undo_loop-undo_all write_down log 7 104
      ((header_at 104, payload_at 104) ∷ (header_at 52, payload_at 52) ∷ []) 3 [] log_records refl
      (omega arith)

-- The last change is undone first, so the oldest value is the last written.
undo_all_test :
    undo_all write_down 7 ((header_at 104, payload_at 104) ∷ (header_at 52, payload_at 52) ∷ []) []
    ≡ done ((b'p' ∷ []) ∷ (b'q' ∷ []) ∷ [])
unfolding undo_all undo_frame field le_decode write_entries write_entry head header payload
    le_encode
undo_all_test = refl

log_chain : Chained log 104
unfolding field le_decode write_entries write_entry head header payload le_encode
log_chain =
    linked 104 (header_at 104) (payload_at 104) frame_at_test.1 (omega arith)
      (linked 52 (header_at 52) (payload_at 52) frame_at_test.0 (omega arith) start)

log_chained : AllChained log ((7, 104) ∷ [])
unfolding lookup
log_chained txn lsn h = elim (Bool-cases (nat_eq 7 txn)) [
  | inl e ↦ subst (Chained log) (ground (arith, h, e)) log_chain
  | inr e ↦ absurd (ground (arith, h, e))
]

run_undo_pass_ends_example : run_undo_pass write_down log ((7, 104) ∷ []) [] ≢ out_of_fuel
unfolding lookup
run_undo_pass_ends_example =
    run_undo_pass_ends write_down log ((7, 104) ∷ []) [] (refl, tt) log_chained
