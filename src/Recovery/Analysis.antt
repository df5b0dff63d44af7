-- ===== src/Recovery/Analysis.antt =====
-- The analysis pass on the bytes of a log that the writer left.
use ultimate_db.Prelude.{
  ℕ, suc, ◌+◌, ◌-◌, ◌^◌, ◌≤◌, ◌<◌, ◌≡◌, refl, ◌∙◌, ap, sym, List, [], ◌∷◌, ◌++◌, length,
  append_assoc, append-nil, length-append, arith, if◌then◌else◌, nat_eq, nat_eq_iff, All, ◌||◌,
  Option, none, some, lookup, lookup-insert, lookup-delete, nat_key,
}
use ultimate_db.Wal.{WalEntry, head, payload, header, write_entry, write_entries}
use ultimate_db.Wal.Frames.{Fits, drop-head, length-write_entry}
use ultimate_db.Recovery.{
  full, read_full, payload_length, done, ActiveTable, track, check_frame, analysis_loop,
  run_analysis_pass,
}
use ultimate_db.Recovery.Frames.{crc-head, lsn-head, txn-head, type-head, read-head, read-payload}

pub fuel_split : {n k : ℕ} → n ≤ k → suc k ≡ n + suc (k - n)
fuel_split le = omega arith

pub lookup-nil : (txn : ℕ) → lookup {V = ℕ} txn [] ≡ none
unfolding lookup
lookup-nil txn = refl

pub suc-+ : (n k : ℕ) → suc n + k ≡ suc (n + k)
suc-+ n k = omega arith

-- The table after the records of a log.
pub track_all : List WalEntry → ActiveTable → ActiveTable
track_all [] active = active
track_all (e ∷ es) active = track_all es (track e.log_type e.txn_id e.lsn active)

-- What one record makes of the entry of its transaction.
unfoldable pub turn : WalEntry → Option ℕ → Option ℕ
turn e old =
    if nat_eq e.log_type 0 || nat_eq e.log_type 1 || nat_eq e.log_type 4
    then some e.lsn
    else if nat_eq e.log_type 2 || nat_eq e.log_type 3
    then none
    else old

-- The LSN of a transaction's last begin, update or compensation record, unless it has ended after
-- that.
unfoldable pub loser : ℕ → List WalEntry → Option ℕ → Option ℕ
unfolding turn
loser txn [] old = old
loser txn (e ∷ es) old = loser txn es (if nat_eq e.txn_id txn then turn e old else old)

lookup-track :
    (txn : ℕ) (e : WalEntry) (active : ActiveTable)
    → lookup txn (track e.log_type e.txn_id e.lsn active)
      ≡ (if nat_eq e.txn_id txn then turn e (lookup txn active) else lookup txn active)
unfolding track turn
lookup-track txn e active =
    ground (arith, lookup-insert e.txn_id txn e.lsn active, lookup-delete e.txn_id txn active)

pub lookup-track_all :
    (txn : ℕ) (es : List WalEntry) (active : ActiveTable)
    → lookup txn (track_all es active) ≡ loser txn es (lookup txn active)
unfolding track_all loser
lookup-track_all txn [] active = refl
lookup-track_all txn (e ∷ es) active =
    lookup-track_all txn es (track e.log_type e.txn_id e.lsn active)
    ∙ ap (loser txn es) (lookup-track txn e active)

module _ (crc : List ℕ → ℕ) (small : (bs : List ℕ) → crc bs < 2 ^ 32) where
  check-head :
      (e : WalEntry) (active : ActiveTable)
      → Fits e
      → check_frame crc (head crc e) (payload e) active
        ≡ done (track e.log_type e.txn_id e.lsn active)
  check-head e active f = ground (
    arith,
    drop-head crc e,
    crc-head crc e (small _),
    lsn-head crc e f,
    txn-head crc e f,
    type-head crc e f,
    nat_eq_iff (crc (header e ++ payload e)) (crc (header e ++ payload e)),
  )

  round :
      (fuel : ℕ) (file h rest p next : List ℕ) (active after : ActiveTable)
      → read_full 49 file ≡ full h rest
      → read_full (payload_length h) rest ≡ full p next
      → check_frame crc h p active ≡ done after
      → analysis_loop crc (suc fuel) file active ≡ analysis_loop crc fuel next after
  unfolding analysis_loop
  round fuel file h rest p next active after e₁ e₂ e₃ = ground (arith, e₁, e₂, e₃)

  pub analysis-write_entry :
      (fuel : ℕ) (e : WalEntry) (more : List ℕ) (active : ActiveTable)
      → Fits e
      → analysis_loop crc (suc fuel) (write_entry crc e ++ more) active
        ≡ analysis_loop crc fuel more (track e.log_type e.txn_id e.lsn active)
  analysis-write_entry fuel e more active f =
      round fuel (write_entry crc e ++ more) (head crc e) (payload e ++ more) (payload e) more
        active _ (read-head crc e f more) (read-payload crc e f more) (check-head e active f)

  -- The pass over the records that were written whole, whatever follows them.
  pub analysis-write_entries :
      (es : List WalEntry) (fuel : ℕ) (more : List ℕ) (active : ActiveTable)
      → All Fits es
      → analysis_loop crc (length es + fuel) (write_entries crc es ++ more) active
        ≡ analysis_loop crc fuel more (track_all es active)
  unfolding write_entries track_all
  analysis-write_entries [] fuel more active f =
      ap (λ n. analysis_loop crc n more active) (omega arith)
  analysis-write_entries (e ∷ es) fuel more active f =
      ap (λ n. analysis_loop crc n ((write_entry crc e ++ write_entries crc es) ++ more) active)
        (suc-+ (length es) fuel)
      ∙ ap (λ bs. analysis_loop crc (suc (length es + fuel)) bs active)
          (append_assoc (write_entry crc e) (write_entries crc es) more)
      ∙ analysis-write_entry (length es + fuel) e (write_entries crc es ++ more) active f.0
      ∙ analysis-write_entries es fuel more (track e.log_type e.txn_id e.lsn active) f.1

  -- Enough fuel: a log is at least as long as it has records.
  pub length-write_entries : (es : List WalEntry) → length es ≤ length (write_entries crc es)
  unfolding write_entries
  length-write_entries [] = omega arith
  length-write_entries (e ∷ es) = omega (
    arith,
    length-append (write_entry crc e) (write_entries crc es),
    length-write_entry crc e,
    length-write_entries es,
  )

  analysis-end :
      (fuel : ℕ) (active : ActiveTable) → analysis_loop crc (suc fuel) [] active ≡ done active
  unfolding analysis_loop read_full
  analysis-end fuel active = refl

  -- The analysis pass on a log that was written whole ends without an error, and its table holds
  -- a transaction exactly when no commit or abort of it follows its last begin, update or
  -- compensation record, with that record's LSN.
  pub run_analysis_pass-write_entries :
      (es : List WalEntry)
      → All Fits es
      → (active : ActiveTable) × (run_analysis_pass crc (write_entries crc es) ≡ done active)
        × ((txn : ℕ) → lookup txn active ≡ loser txn es none)
  unfolding run_analysis_pass
  run_analysis_pass-write_entries es f = (
    track_all es [],
    ap (λ n. analysis_loop crc n (write_entries crc es) []) (fuel_split (length-write_entries es))
        ∙ ap
            (λ bs.
              analysis_loop crc (length es + suc (length (write_entries crc es) - length es)) bs [])
            (sym (append-nil (write_entries crc es)))
        ∙ analysis-write_entries es (suc (length (write_entries crc es) - length es)) [] [] f
        ∙ analysis-end (length (write_entries crc es) - length es) (track_all es []),
    λ txn. lookup-track_all txn es [] ∙ ap (loser txn es) (lookup-nil txn),
  )
