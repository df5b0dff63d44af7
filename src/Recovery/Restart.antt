-- ===== src/Recovery/Restart.antt =====
-- The log and its recovery together: what a start-up finds after a sequence of `Append`s.
use ultimate_db.Prelude.{ℕ, ◌^◌, ◌<◌, ◌≡◌, ◌∙◌, ap, List, [], All, none, lookup, nat_key, arith}
use ultimate_db.Wal.{new_batching_wal}
use ultimate_db.Wal.Appending.{
  Request, InRange, append_all, entries, entries-Fits, file-append_all, IsConsistent,
}
use ultimate_db.Recovery.{done, ActiveTable, run_analysis_pass}
use ultimate_db.Recovery.Analysis.{loser, run_analysis_pass-write_entries, lookup-nil}

pub fresh-IsConsistent : IsConsistent (new_batching_wal [])
fresh-IsConsistent = record { lsn = omega arith; prev = λ txn. ground (arith, lookup-nil txn) }

module _ (crc : List ℕ → ℕ) (small : (bs : List ℕ) → crc bs < 2 ^ 32) where
  -- After any calls of `Append`, one after the other, on a new log, with arguments in range and a
  -- checksum below 2 ^ 32, the analysis pass on its file succeeds, and finds a transaction exactly
  -- when no commit or abort of it follows its last begin, update or compensation record, with the
  -- LSN that `Append` returned for that record.
  pub restart :
      (rs : List Request)
      → All InRange rs
      → (active : ActiveTable) × (run_analysis_pass crc
            (append_all crc (new_batching_wal []) rs).file
          ≡ done active)
        × ((txn : ℕ) → lookup txn active ≡ loser txn (entries (new_batching_wal []) rs) none)
  restart rs f =
      let (active, e, h) =
        run_analysis_pass-write_entries crc small (entries (new_batching_wal []) rs)
          (entries-Fits (new_batching_wal []) rs fresh-IsConsistent f) in
      (active, ap (run_analysis_pass crc) (file-append_all crc (new_batching_wal []) rs) ∙ e, h)
