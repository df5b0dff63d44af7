-- ===== src/Recovery/Redo.antt =====
-- The redo pass on the bytes of a log that the writer left: history is repeated in order.
use ultimate_db.Prelude.{
  ℕ, suc, ◌+◌, ◌-◌, ◌%◌, ◌^◌, ◌<◌, ◌≡◌, refl, ◌∙◌, ap, sym, Option, none, some, ◌||◌, List, [], ◌∷◌,
  ◌++◌, append_assoc, length, take, drop, take-append, drop-append, length-append, arith,
  if◌then◌else◌, nat_eq, All,
}
use ultimate_db.Wal.{WalEntry, head, payload, write_entry, write_entries}
use ultimate_db.Wal.Frames.{Fits, length-payload}
use ultimate_db.Recovery.{
  full, read_full, Outcome, done, failed, panicked, out_of_fuel, not_restored, payload_length,
  redo_frame, redo_loop, run_redo_pass,
}
use ultimate_db.Recovery.Frames.{
  read-head, read-payload, type-head, page-head, key_length-head, old_length-head,
}
use ultimate_db.Recovery.Analysis.{length-write_entries, suc-+, fuel_split}

module _ {S : Type 0} (restore_write : ℕ → ℕ → List ℕ → List ℕ → S → Option S) where
  -- The specification: the new values of the updates and compensations, in the log's order.
  abbrev pub repeat : WalEntry → S → Outcome S
  repeat e s =
      if nat_eq e.log_type 1 || nat_eq e.log_type 4
      then elim (restore_write 0 e.page_id e.key e.new_value s) [
        | none ↦ failed not_restored
        | some s' ↦ done s'
      ]
      else done s

  unfoldable pub repeat_history : List WalEntry → S → Outcome S
  repeat_history [] s = done s
  repeat_history (e ∷ es) s = elim (repeat e s) [
    | done s' ↦ repeat_history es s'
    | failed f ↦ failed f
    | panicked ↦ panicked
    | out_of_fuel ↦ out_of_fuel
  ]

  abbrev and_then : Outcome S → (S → Outcome S) → Outcome S
  and_then o next = elim o [
    | done s ↦ next s
    | failed f ↦ failed f
    | panicked ↦ panicked
    | out_of_fuel ↦ out_of_fuel
  ]

  and_then_ext :
      (o : Outcome S) (f g : S → Outcome S) → ((s : S) → f s ≡ g s) → and_then o f ≡ and_then o g
  and_then_ext (done s) f g h = h s
  and_then_ext (failed x) f g h = refl
  and_then_ext panicked f g h = refl
  and_then_ext out_of_fuel f g h = refl

  take-payload : (e : WalEntry) → take (length e.key) (payload e) ≡ e.key
  unfolding payload
  take-payload e = take-append e.key (e.old_value ++ e.new_value)

  drop-payload : (e : WalEntry) → drop (length e.key + length e.old_value) (payload e) ≡ e.new_value
  unfolding payload
  drop-payload e =
      ap (λ bs. drop (length e.key + length e.old_value) bs)
        (sym (append_assoc e.key e.old_value e.new_value))
      ∙ ap (λ n. drop n ((e.key ++ e.old_value) ++ e.new_value))
          (sym (length-append e.key e.old_value))
      ∙ drop-append (e.key ++ e.old_value) e.new_value

  module _ (crc : List ℕ → ℕ) where
    redo_frame-head :
        (e : WalEntry) (s : S)
        → Fits e
        → redo_frame restore_write (head crc e) (payload e) s ≡ repeat e s
    unfolding redo_frame
    redo_frame-head e s f =
        rw (type-head crc e f, page-head crc e f, key_length-head crc e f, old_length-head crc e f)
          (rw (small, take-payload e, drop-payload e) (ground (arith, length-payload e)))
      where
        small : (length e.key + length e.old_value) % 2 ^ 32 ≡ length e.key + length e.old_value
        small = omega (arith, f.size)

    redo_round :
        (fuel : ℕ) (file h rest p next : List ℕ) (s : S)
        → read_full 49 file ≡ full h rest
        → read_full (payload_length h) rest ≡ full p next
        → redo_loop restore_write (suc fuel) file s ≡ elim (redo_frame restore_write h p s) [
          | done s' ↦ redo_loop restore_write fuel next s'
          | failed f ↦ failed f
          | panicked ↦ panicked
          | out_of_fuel ↦ out_of_fuel
        ]
    unfolding redo_loop
    redo_round fuel file h rest p next s e₁ e₂ = ground (arith, e₁, e₂)

    redo_end : (fuel : ℕ) (s : S) → redo_loop restore_write (suc fuel) [] s ≡ done s
    unfolding redo_loop read_full
    redo_end fuel s = refl

    redo-write_entries :
        (es : List WalEntry) (fuel : ℕ) (s : S)
        → All Fits es
        → redo_loop restore_write (length es + suc fuel) (write_entries crc es) s
          ≡ repeat_history es s
    unfolding write_entries repeat_history
    redo-write_entries [] fuel s f =
        ap (λ n. redo_loop restore_write n [] s) (omega arith) ∙ redo_end fuel s
    redo-write_entries (e ∷ es) fuel s f =
        ap (λ n. redo_loop restore_write n (write_entry crc e ++ write_entries crc es) s)
          (suc-+ (length es) (suc fuel))
        ∙ redo_round (length es + suc fuel) (write_entry crc e ++ write_entries crc es) (head crc e)
            (payload e ++ write_entries crc es) (payload e) (write_entries crc es) s
            (read-head crc e f.0 (write_entries crc es))
            (read-payload crc e f.0 (write_entries crc es))
        ∙ rw (redo_frame-head e s f.0) (
            and_then_ext (repeat e s)
              (redo_loop restore_write (length es + suc fuel) (write_entries crc es))
              (repeat_history es) (λ s'. redo-write_entries es fuel s' f.1))

    -- The redo pass on a log that was written whole repeats its updates and compensations in
    -- order, each with its new value, and fails only if a write to a page does.
    pub run_redo_pass-write_entries :
        (small : (bs : List ℕ) → crc bs < 2 ^ 32) (es : List WalEntry) (s : S)
        → All Fits es
        → run_redo_pass restore_write (write_entries crc es) s ≡ repeat_history es s
    unfolding run_redo_pass
    run_redo_pass-write_entries small es s f =
        ap (λ n. redo_loop restore_write n (write_entries crc es) s)
          (fuel_split (length-write_entries crc small es))
        ∙ redo-write_entries es (length (write_entries crc es) - length es) s f
