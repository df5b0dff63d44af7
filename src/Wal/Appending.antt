-- ===== src/Wal/Appending.antt =====
-- Sequences of `Append`: the file holds the frames in order, each at the offset that is its LSN.
use mathlib.Core.Path.{subst}
use ultimate_db.Prelude.{
  ℕ, ◌+◌, ◌^◌, ◌<◌, ◌≡◌, refl, ◌∙◌, ap, sym, List, [], ◌∷◌, ◌++◌, append_assoc, append-nil, length,
  take, drop, length-append, take-append, drop-append, arith, All, lookup, lookup-insert,
  lookup-delete, nat_key,
}
use ultimate_db.Wal.{
  WalEntry, BatchingWal, or_zero, entry_size, write_entry, write_entries, assign, append,
}
use ultimate_db.Wal.Frames.{Fits, length-write_entry}

-- The arguments of a call of `Append`.
pub record Request : Type 0 where
  pub txn : ℕ
  pub log_type : ℕ
  pub page : ℕ
  pub key : List ℕ
  pub old_value : List ℕ
  pub new_value : List ℕ

pub record InRange (r : Request) : Type 0 where
  pub txn : r.txn < 2 ^ 64
  pub log_type : r.log_type < 256
  pub page : r.page < 2 ^ 64
  pub size : 49 + length r.key + length r.old_value + length r.new_value < 2 ^ 32

abbrev pub assigned : BatchingWal → Request → BatchingWal × WalEntry
assigned w r = assign w r.txn r.log_type r.page r.key r.old_value r.new_value

abbrev pub appended : (List ℕ → ℕ) → BatchingWal → Request → BatchingWal
appended crc w r = (append crc w r.txn r.log_type r.page r.key r.old_value r.new_value).0

unfoldable pub append_all : (List ℕ → ℕ) → BatchingWal → List Request → BatchingWal
append_all crc w [] = w
append_all crc w (r ∷ rs) = append_all crc (appended crc w r) rs

-- The records with their numbers.
unfoldable pub entries : BatchingWal → List Request → List WalEntry
entries w [] = []
entries w (r ∷ rs) = (assigned w r).1 ∷ entries (assigned w r).0 rs

-- What `Append` relies on between calls.
pub record IsConsistent (w : BatchingWal) : Type 0 where
  pub lsn : w.current_lsn < 2 ^ 64
  pub prev : (txn : ℕ) → or_zero (lookup txn w.txn_prev_lsn) < 2 ^ 64

assigned-IsConsistent :
    (w : BatchingWal) (r : Request) → IsConsistent w → IsConsistent (assigned w r).0
unfolding assign
assigned-IsConsistent w r h = record {
  lsn = omega arith;
  prev = λ txn. ground (
    arith,
    h.lsn,
    h.prev txn,
    lookup-insert r.txn txn w.current_lsn w.txn_prev_lsn,
    lookup-delete r.txn txn w.txn_prev_lsn,
  );
}

assigned-Fits : (w : BatchingWal) (r : Request) → IsConsistent w → InRange r → Fits (assigned w r).1
unfolding assign
assigned-Fits w r h f = record {
  lsn = h.lsn;
  txn_id = f.txn;
  prev_lsn = h.prev r.txn;
  log_type = f.log_type;
  page_id = f.page;
  size = f.size;
}

-- Numbering does not look at the file.
entries-file :
    (bs : List ℕ) (w : BatchingWal) (rs : List Request)
    → entries (record w { file = bs }) rs ≡ entries w rs
unfolding entries assign
entries-file bs w [] = refl
entries-file bs w (r ∷ rs) = ap (λ es. (assigned w r).1 ∷ es) (entries-file bs (assigned w r).0 rs)

pub entries-Fits :
    (w : BatchingWal) (rs : List Request)
    → IsConsistent w
    → All InRange rs
    → All Fits (entries w rs)
unfolding entries
entries-Fits w [] h f = tt
entries-Fits w (r ∷ rs) h f =
    (assigned-Fits w r h f.0, entries-Fits (assigned w r).0 rs (assigned-IsConsistent w r h) f.1)

module _ (crc : List ℕ → ℕ) where
  pub file-append_all :
      (w : BatchingWal) (rs : List Request)
      → (append_all crc w rs).file ≡ w.file ++ write_entries crc (entries w rs)
  unfolding append_all entries append write_entries
  file-append_all w [] = sym (append-nil w.file)
  file-append_all w (r ∷ rs) =
      file-append_all (appended crc w r) rs
      ∙ ap (λ es. (w.file ++ write_entry crc (assigned w r).1) ++ write_entries crc es)
          (entries-file (w.file ++ write_entry crc (assigned w r).1) (assigned w r).0 rs)
      ∙ append_assoc w.file (write_entry crc (assigned w r).1)
          (write_entries crc (entries (assigned w r).0 rs))

  -- The frame of `e` starts at the offset `e.lsn` of the file.
  abbrev pub At : List ℕ → WalEntry → Type 0
  At file e = take (entry_size e) (drop e.lsn file) ≡ write_entry crc e

  At-first :
      (before : List ℕ) (e : WalEntry) (more : List ℕ)
      → e.lsn ≡ length before
      → At (before ++ (write_entry crc e ++ more)) e
  At-first before e more h =
      ap (λ n. take (entry_size e) (drop n (before ++ (write_entry crc e ++ more)))) h
      ∙ ap (take (entry_size e)) (drop-append before (write_entry crc e ++ more))
      ∙ ap (λ n. take n (write_entry crc e ++ more)) (sym (length-write_entry crc e))
      ∙ take-append (write_entry crc e) more

  length-entries :
      (w : BatchingWal) (r : Request) (rs : List Request)
      → length (write_entries crc (entries w (r ∷ rs)))
        ≡ entry_size (assigned w r).1 + length (write_entries crc (entries (assigned w r).0 rs))
  unfolding entries write_entries
  length-entries w r rs =
      length-append (write_entry crc (assigned w r).1)
        (write_entries crc (entries (assigned w r).0 rs))
      ∙ ap (λ n. n + length (write_entries crc (entries (assigned w r).0 rs)))
          (length-write_entry crc (assigned w r).1)

  assigned_lsn : (w : BatchingWal) (r : Request) → (assigned w r).1.lsn ≡ w.current_lsn
  unfolding assign
  assigned_lsn w r = refl

  next_lsn :
      (w : BatchingWal) (r : Request)
      → w.current_lsn + entry_size (assigned w r).1 < 2 ^ 64
      → (assigned w r).0.current_lsn ≡ w.current_lsn + entry_size (assigned w r).1
  unfolding assign
  next_lsn w r lt = omega arith

  entries-At :
      (w : BatchingWal) (rs : List Request) (before : List ℕ)
      → w.current_lsn ≡ length before
      → length before + length (write_entries crc (entries w rs)) < 2 ^ 64
      → All (At (before ++ write_entries crc (entries w rs))) (entries w rs)
  unfolding entries write_entries
  entries-At w [] before h room = tt
  entries-At w (r ∷ rs) before h room = (
    At-first before (assigned w r).1 (write_entries crc (entries (assigned w r).0 rs))
        (assigned_lsn w r ∙ h),
    subst (λ bs. All (At bs) (entries (assigned w r).0 rs))
        (append_assoc before (write_entry crc (assigned w r).1)
          (write_entries crc (entries (assigned w r).0 rs)))
        (entries-At (assigned w r).0 rs (before ++ write_entry crc (assigned w r).1)
          (next_lsn w r (omega (arith, h, room, length-entries w r rs))
            ∙ omega (
              arith,
              h,
              length-append before (write_entry crc (assigned w r).1),
              length-write_entry crc (assigned w r).1,
            ))
          (omega (
            arith,
            room,
            length-entries w r rs,
            length-append before (write_entry crc (assigned w r).1),
            length-write_entry crc (assigned w r).1,
          ))),
  )

  -- After any calls of `Append`, one after the other, on a log whose next LSN is its length, each
  -- record's frame is in the file at the offset that is its LSN, if the file stays below 2 ^ 64
  -- bytes.
  pub append_all-At :
      (w : BatchingWal) (rs : List Request)
      → w.current_lsn ≡ length w.file
      → length (append_all crc w rs).file < 2 ^ 64
      → All (At (append_all crc w rs).file) (entries w rs)
  append_all-At w rs h room =
      subst (λ bs. All (At bs) (entries w rs)) (sym (file-append_all w rs))
        (entries-At w rs w.file h (
          omega (
            arith,
            room,
            ap length (file-append_all w rs),
            length-append w.file (write_entries crc (entries w rs)),
          )))
