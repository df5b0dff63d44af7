-- ===== src/Recovery/Frames.antt =====
-- Reading a frame that the log's writer wrote.
use ultimate_db.Prelude.{
  ℕ, ◌^◌, ◌<◌, ◌≡◌, ◌∙◌, ap, sym, List, ◌++◌, length, length-append, take-append, drop-append,
  arith,
}
use ultimate_db.Bytes.{le_encode, decode-encode}
use ultimate_db.Wal.{head, WalEntry, payload, header, write_entry}
use ultimate_db.Wal.Frames.{Fits, length-payload, length-head, append-write_entry}
use ultimate_db.Recovery.{
  full, read_full, field, lsn_of, txn_of, prev_of, type_of, page_of, key_length, old_length,
  new_length, payload_length,
}

-- A read of a first part that is all there.
pub read_full-append : (xs ys : List ℕ) → read_full (length xs) (xs ++ ys) ≡ full xs ys
unfolding read_full
read_full-append xs ys = ground (arith, length-append xs ys, take-append xs ys, drop-append xs ys)

module _ (crc : List ℕ → ℕ) (e : WalEntry) where
  abbrev h : List ℕ
  h = head crc e

  pub crc-head : crc (header e ++ payload e) < 2 ^ 32 → field h 0 4 ≡ crc (header e ++ payload e)
  unfolding head header field le_encode
  crc-head small = decode-encode 4 _ (omega arith)

  module _ (f : Fits e) where
    pub lsn-head : lsn_of h ≡ e.lsn
    unfolding head header field le_encode
    lsn-head = decode-encode 8 e.lsn (omega (arith, f.lsn))

    pub txn-head : txn_of h ≡ e.txn_id
    unfolding head header field le_encode
    txn-head = decode-encode 8 e.txn_id (omega (arith, f.txn_id))

    pub prev-head : prev_of h ≡ e.prev_lsn
    unfolding head header field le_encode
    prev-head = decode-encode 8 e.prev_lsn (omega (arith, f.prev_lsn))

    pub type-head : type_of h ≡ e.log_type
    unfolding head header field le_encode
    type-head = decode-encode 1 e.log_type (omega (arith, f.log_type))

    pub page-head : page_of h ≡ e.page_id
    unfolding head header field le_encode
    page-head = decode-encode 8 e.page_id (omega (arith, f.page_id))

    pub key_length-head : key_length h ≡ length e.key
    unfolding head header field le_encode
    key_length-head = decode-encode 4 _ (omega arith) ∙ omega (arith, f.size)

    pub old_length-head : old_length h ≡ length e.old_value
    unfolding head header field le_encode
    old_length-head = decode-encode 4 _ (omega arith) ∙ omega (arith, f.size)

    pub new_length-head : new_length h ≡ length e.new_value
    unfolding head header field le_encode
    new_length-head = decode-encode 4 _ (omega arith) ∙ omega (arith, f.size)

    pub payload_length-head : payload_length h ≡ length (payload e)
    payload_length-head =
        omega (arith, key_length-head, old_length-head, new_length-head, length-payload e, f.size)

    -- The two reads of a round.
    pub read-head :
        (more : List ℕ) → read_full 49 (write_entry crc e ++ more) ≡ full h (payload e ++ more)
    read-head more =
        ap (read_full 49) (append-write_entry crc e more)
        ∙ ap (λ n. read_full n (h ++ (payload e ++ more))) (sym (length-head crc e))
        ∙ read_full-append h (payload e ++ more)

    pub read-payload :
        (more : List ℕ) → read_full (payload_length h) (payload e ++ more) ≡ full (payload e) more
    read-payload more =
        ap (λ n. read_full n (payload e ++ more)) payload_length-head
        ∙ read_full-append (payload e) more
