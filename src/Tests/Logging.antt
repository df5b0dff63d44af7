-- ===== src/Tests/Logging.antt =====
-- The log: a transaction that commits and one that does not; the checksum is a sum.
use ultimate_db.Prelude.{
  ℕ, ◌+◌, ◌%◌, ◌^◌, ◌<◌, ◌≡◌, refl, List, [], ◌∷◌, ◌++◌, none, some, Option, lookup, insert, delete,
  nat_key, arith, All, length, take, if◌then◌else◌, ltb,
}
use ultimate_db.Page.Init.{init-Holds}
use ultimate_db.Page.{init}
use ultimate_db.Page.Record.{Record}
use ultimate_db.Db.Write.{write_record}
use ultimate_db.Db.Restore.{restore_write, restore_write-write_record}
use ultimate_db.Wal.{
  assign, append, head, header, payload, new_batching_wal, WalEntry, write_entry, write_entries,
}
use ultimate_db.Bytes.{le_encode}
use ultimate_db.Wal.Frames.{Fits}
use ultimate_db.Wal.Appending.{Request, InRange, append_all, entries, At, append_all-At}
use ultimate_db.Recovery.{
  done, failed, short_read, corrupted_payload, ActiveTable, run_analysis_pass,
}
use ultimate_db.Recovery.Analysis.{loser, turn}
use ultimate_db.Recovery.Torn.{Ends, run_analysis_pass-Ends, run_analysis_pass-torn}
use ultimate_db.Recovery.{run_redo_pass}
use ultimate_db.Recovery.Redo.{repeat_history, run_redo_pass-write_entries}
use ultimate_db.Recovery.Restart.{restart}

abbrev sum : List ℕ → ℕ
sum [] = 0
sum (b ∷ bs) = (b + sum bs) % 2 ^ 32

sum_small : (bs : List ℕ) → sum bs < 2 ^ 32
sum_small [] = omega arith
sum_small (b ∷ bs) = omega arith

abbrev update : ℕ → Request
update txn = record {
  txn = txn;
  log_type = 1;
  page = 2;
  key = 97 ∷ [];
  old_value = [];
  new_value = 120 ∷ [];
}

abbrev commit : ℕ → Request
commit txn = record { txn = txn; log_type = 2; page = 0; key = []; old_value = []; new_value = [] }

abbrev requests : List Request
requests = update 5 ∷ update 6 ∷ commit 5 ∷ []

update-InRange : (txn : ℕ) → txn < 2 ^ 64 → InRange (update txn)
update-InRange txn lt = record {
  txn = lt;
  log_type = omega arith;
  page = omega arith;
  size = omega arith;
}

commit-InRange : (txn : ℕ) → txn < 2 ^ 64 → InRange (commit txn)
commit-InRange txn lt = record {
  txn = lt;
  log_type = omega arith;
  page = omega arith;
  size = omega arith;
}

requests-InRange : All InRange requests
requests-InRange = (
  update-InRange 5 (omega arith),
  (update-InRange 6 (omega arith), (commit-InRange 5 (omega arith), tt)),
)

-- Transaction 6, whose update is the second record, is the loser.
losers_test :
    (loser 5 (entries (new_batching_wal []) requests) none ≡ none)
    × (loser 6 (entries (new_batching_wal []) requests) none ≡ some 51)
unfolding loser entries assign turn
losers_test = (refl, refl)

restart_example :
    (active : ActiveTable) × (run_analysis_pass sum
        (append_all sum (new_batching_wal []) requests).file
      ≡ done active)
    × ((txn : ℕ) → lookup txn active ≡ loser txn (entries (new_batching_wal []) requests) none)
restart_example = restart sum sum_small requests requests-InRange

append_all_room : length (append_all sum (new_batching_wal []) requests).file < 2 ^ 64
unfolding append_all append assign write_entry head header payload le_encode insert delete
append_all_room = omega arith

append_all-At_test :
    All
      (At sum (append_all sum (new_batching_wal []) requests).file)
      (entries (new_batching_wal []) requests)
append_all-At_test = append_all-At sum (new_batching_wal []) requests refl append_all_room

abbrev entry : WalEntry
entry = record {
  lsn = 0;
  txn_id = 7;
  prev_lsn = 0;
  log_type = 1;
  page_id = 2;
  key = 97 ∷ [];
  old_value = [];
  new_value = 120 ∷ [];
}

entry-Fits : Fits entry
entry-Fits = record {
  lsn = omega arith;
  txn_id = omega arith;
  prev_lsn = omega arith;
  log_type = omega arith;
  page_id = omega arith;
  size = omega arith;
}

run_analysis_pass-torn_example :
    run_analysis_pass sum (write_entries sum (entry ∷ []) ++ take 50 (write_entry sum entry))
    ≡ failed (if ltb 50 49 then short_read else corrupted_payload)
run_analysis_pass-torn_example =
    run_analysis_pass-torn sum sum_small (entry ∷ []) entry 50 (entry-Fits, tt) entry-Fits
      (omega arith) (omega arith)

run_analysis_pass-Ends_test : Ends (run_analysis_pass sum (1 ∷ 2 ∷ []))
run_analysis_pass-Ends_test = run_analysis_pass-Ends sum (1 ∷ 2 ∷ [])

abbrev item : Record
item = record { txn_id = 3; expires_at = 900; key = 97 ∷ []; value = 120 ∷ [] }

restored_as_written : restore_write 1 (init (λ i. 0)) item ≡ write_record 1 (init (λ i. 0)) item
restored_as_written =
    restore_write-write_record 1 (init (λ i. 0)) [] item (init-Holds (λ i. 0)) (omega arith)

-- Pages as the list of the writes to them.
abbrev write_down : ℕ → ℕ → List ℕ → List ℕ → List (List ℕ) → Option (List (List ℕ))
write_down txn page key val log = some (val ∷ log)

run_redo_pass-write_entries_test :
    run_redo_pass write_down (write_entries sum (entry ∷ entry ∷ [])) []
    ≡ repeat_history write_down (entry ∷ entry ∷ []) []
run_redo_pass-write_entries_test =
    run_redo_pass-write_entries write_down sum sum_small (entry ∷ entry ∷ []) []
      (entry-Fits, (entry-Fits, tt))
