-- ===== src/Recovery/Undo.antt =====
-- recovery.go: the undo pass, which takes the records of the transactions that did not end from the
-- last to the first. The order of a `range` over the table matters only between equal LSNs.
pub mod Undone
pub mod Ends
use ultimate_db.Prelude.{
  ℕ, zero, suc, ◌+◌, ◌%◌, ◌^◌, Bool, true, false, ◌||◌, Option, none, some, List, [], ◌∷◌, length,
  take, drop, nat_eq, ltb, leb, if◌then◌else◌, Map, insert, delete, nat_key, each_entry,
}
use ultimate_db.Wal.{log_type_update}
use ultimate_db.Recovery.{
  ReadFull, eof, unexpected_eof, full, read_full, Outcome, done, failed, panicked, out_of_fuel,
  short_read, not_restored, type_of, prev_of, page_of, key_length, old_length, payload_length,
  ActiveTable,
}

-- if lsn >= maxLSN { maxLSN = lsn; targetTxnID = txnID }
abbrev pub pick_step : ℕ → ℕ → ℕ × ℕ → ℕ × ℕ
pick_step txn lsn (max_lsn, target) = if leb max_lsn lsn then (lsn, txn) else (max_lsn, target)

-- The highest LSN of the table, and its transaction.
unfoldable pub pick : ActiveTable → ℕ × ℕ
pick active = each_entry pick_step active (0, 0)

-- The end of a round.
abbrev pub unlink : ℕ → ℕ → ActiveTable → ActiveTable
unlink target prev active =
    if nat_eq prev 0 then delete target active else insert target prev active

-- A record at its offset: the header and the payload, each read in full or an error.
unfoldable pub frame_at : ℕ → List ℕ → Option (List ℕ × List ℕ)
unfolding read_full
frame_at lsn file = elim (read_full 49 (drop lsn file)) [
  | eof ↦ none
  | unexpected_eof ↦ none
  | full h rest ↦ elim (read_full (payload_length h) rest) [
    | eof ↦ none
    | unexpected_eof ↦ none
    | full payload next ↦ some (h, payload)
  ]
]

abbrev pub sum_lsns : ActiveTable → ℕ
sum_lsns [] = 0
sum_lsns ((txn, lsn) ∷ active) = lsn + sum_lsns active

-- The store of pages with `restoreWrite(txn, math.MaxInt64, page, key, value)`.
module _ {S : Type 0} (restore_write : ℕ → ℕ → List ℕ → List ℕ → S → Option S) where
  -- What is done with a record of the transaction; the slices panic if they end past the payload.
  unfoldable pub undo_frame : ℕ → List ℕ → List ℕ → S → Outcome S
  undo_frame txn h payload s =
      if nat_eq (type_of h) log_type_update
      then (if ltb (length payload) (key_length h)
            || ltb (length payload) ((key_length h + old_length h) % 2 ^ 32)
            || ltb ((key_length h + old_length h) % 2 ^ 32) (key_length h)
          then panicked
          else elim (restore_write txn (page_of h) (take (key_length h) payload)
              (drop (key_length h) (take ((key_length h + old_length h) % 2 ^ 32) payload)) s) [
                | none ↦ failed not_restored
                | some s' ↦ done s'
              ])
      else done s

  abbrev pub then_undo : Outcome S → (S → Outcome S) → Outcome S
  then_undo (done s) next = next s
  then_undo (failed f) next = failed f
  then_undo panicked next = panicked
  then_undo out_of_fuel next = out_of_fuel

  -- The record is undone, and the loop goes on with the LSN before it.
  abbrev pub undo_at : ℕ → Option (List ℕ × List ℕ) → S → (ℕ → S → Outcome S) → Outcome S
  undo_at target none s next = failed short_read
  undo_at target (some (h, payload)) s next =
      then_undo (undo_frame target h payload s) (next (prev_of h))

  unfoldable pub undo_loop : ℕ → List ℕ → ActiveTable → S → Outcome S
  unfolding pick frame_at undo_frame
  undo_loop zero file active s = out_of_fuel
  undo_loop (suc fuel) file active s =
      let next : ℕ → S → Outcome S =
        λ prev. undo_loop fuel file (unlink (pick active).1 prev active) in
      if nat_eq (pick active).0 0
      then done s
      else undo_at (pick active).1 (frame_at (pick active).0 file) s next

  -- `runUndoPass`; the table's LSNs are fuel enough, since each round lowers one or drops it.
  unfoldable pub run_undo_pass : List ℕ → ActiveTable → S → Outcome S
  unfolding undo_loop
  run_undo_pass file active s = undo_loop (suc (sum_lsns active)) file active s
