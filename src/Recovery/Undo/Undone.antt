-- ===== src/Recovery/Undo/Undone.antt =====
-- recovery.go's undo pass over the records of one transaction.
use ultimate_db.Prelude.{
  ℕ, zero, suc, ◌<◌, ◌≡◌, inl, inr, sym, ap, ◌∙◌, refl, true, false, Option, some, List, [], ◌∷◌,
  arith, length, nat_eq, nat_eq_iff, if◌then◌else◌, insert, delete, nat_key, each_entry, Bool-cases,
}
use ultimate_db.Recovery.{Outcome, done, failed, panicked, out_of_fuel, prev_of}
use ultimate_db.Recovery.Undo.{pick, unlink, undo_frame, undo_at, then_undo, frame_at, undo_loop}

-- The records of one transaction: each at its offset, and each the one before the next by `prevLSN`.
pub data Records (file : List ℕ) : ℕ → List (List ℕ × List ℕ) → Type 0 where
  no_records : Records file 0 []
  record_at :
      (lsn : ℕ) (h payload : List ℕ) (records : List (List ℕ × List ℕ))
      → nat_eq lsn 0 ≡ false
      → frame_at lsn file ≡ some (h, payload)
      → Records file (prev_of h) records
      → Records file lsn ((h, payload) ∷ records)

pick-one : (txn lsn : ℕ) → pick ((txn, lsn) ∷ []) ≡ (lsn, txn)
unfolding pick each_entry
pick-one txn lsn = ground arith

unlink-last : (txn lsn prev : ℕ) → nat_eq prev 0 ≡ true → unlink txn prev ((txn, lsn) ∷ []) ≡ []
unfolding delete
unlink-last txn lsn prev h = ground (arith, h, nat_eq_iff txn txn)

unlink-more :
    (txn lsn prev : ℕ)
    → nat_eq prev 0 ≡ false
    → unlink txn prev ((txn, lsn) ∷ []) ≡ (txn, prev) ∷ []
unfolding insert
unlink-more txn lsn prev h = ground (arith, h, nat_eq_iff txn txn)

none_at_zero :
    (file : List ℕ) (lsn : ℕ) (records : List (List ℕ × List ℕ))
    → Records file lsn records
    → nat_eq lsn 0 ≡ true
    → records ≡ []
none_at_zero file lsn records no_records h = refl
none_at_zero file lsn records (record_at _ hd payload rest nz here more) h =
    absurd (ground (arith, nz, h))

module _ {S : Type 0} (restore_write : ℕ → ℕ → List ℕ → List ℕ → S → Option S) where
  -- The records undone one after another.
  unfoldable pub undo_all : ℕ → List (List ℕ × List ℕ) → S → Outcome S
  undo_all txn [] s = done s
  undo_all txn ((h, payload) ∷ records) s =
      then_undo restore_write (undo_frame restore_write txn h payload s) (undo_all txn records)

  same_after :
      (o : Outcome S) (f g : S → Outcome S)
      → ((s : S) → f s ≡ g s)
      → then_undo restore_write o f ≡ then_undo restore_write o g
  same_after (done s) f g h = h s
  same_after (failed e) f g h = refl
  same_after panicked f g h = refl
  same_after out_of_fuel f g h = refl

  -- A round on a table with one transaction.
  undo_loop-one :
      (file : List ℕ) (txn lsn fuel : ℕ) (hd payload : List ℕ) (s : S)
      → nat_eq lsn 0 ≡ false
      → frame_at lsn file ≡ some (hd, payload)
      → undo_loop restore_write (suc fuel) file ((txn, lsn) ∷ []) s
        ≡ then_undo restore_write
            (undo_frame restore_write txn hd payload s)
            (undo_loop restore_write fuel file (unlink txn (prev_of hd) ((txn, lsn) ∷ [])))
  unfolding undo_loop
  undo_loop-one file txn lsn fuel hd payload s nz here =
      ap
        (λ p.
          if nat_eq p.0 0
          then done s
          else undo_at restore_write p.1 (frame_at p.0 file) s
              (λ prev. undo_loop restore_write fuel file (unlink p.1 prev ((txn, lsn) ∷ []))))
        (pick-one txn lsn)
      ∙ ap
          (λ b.
            if b
            then done s
            else undo_at restore_write txn (frame_at lsn file) s
                (λ prev. undo_loop restore_write fuel file (unlink txn prev ((txn, lsn) ∷ []))))
          nz
      ∙ ap
          (λ o.
            undo_at restore_write txn o s
              (λ prev. undo_loop restore_write fuel file (unlink txn prev ((txn, lsn) ∷ []))))
          here

  undo_loop-empty :
      (file : List ℕ) (fuel : ℕ) (s : S) → undo_loop restore_write (suc fuel) file [] s ≡ done s
  unfolding undo_loop pick each_entry
  undo_loop-empty file fuel s = refl

  -- The records of one transaction are undone from the last to the first, as many rounds as records
  -- and one more.
  pub undo_loop-undo_all :
      (file : List ℕ) (txn lsn : ℕ) (records : List (List ℕ × List ℕ)) (fuel : ℕ) (s : S)
      → Records file lsn records
      → nat_eq lsn 0 ≡ false
      → length records < fuel
      → undo_loop restore_write fuel file ((txn, lsn) ∷ []) s ≡ undo_all txn records s
  unfolding undo_all
  undo_loop-undo_all file txn lsn records zero s r nz h = absurd (omega (arith, h))
  undo_loop-undo_all file txn lsn records (suc fuel) s no_records nz h = absurd (ground (arith, nz))
  undo_loop-undo_all file txn lsn records (suc fuel) s (record_at _ hd payload rest nz here more) _
        h =
      undo_loop-one file txn lsn fuel hd payload s nz here
      ∙ same_after (undo_frame restore_write txn hd payload s)
          (undo_loop restore_write fuel file (unlink txn (prev_of hd) ((txn, lsn) ∷ [])))
          (undo_all txn rest)
          (λ s'. elim (Bool-cases (nat_eq (prev_of hd) 0)) [
            | inl e ↦
                ap (λ t. undo_loop restore_write fuel file t s')
                  (unlink-last txn lsn (prev_of hd) e)
                ∙ emptied fuel s' (omega (arith, h))
                ∙ ap (λ rs. undo_all txn rs s') (sym (none_at_zero file (prev_of hd) rest more e))
            | inr e ↦
                ap (λ t. undo_loop restore_write fuel file t s')
                  (unlink-more txn lsn (prev_of hd) e)
                ∙ undo_loop-undo_all file txn (prev_of hd) rest fuel s' more e (omega (arith, h))
          ])
    where
      emptied :
          (fuel : ℕ) (s' : S)
          → 0 < fuel
          → undo_loop restore_write fuel file [] s' ≡ undo_all txn [] s'
      emptied zero s' h = absurd (omega (arith, h))
      emptied (suc fuel) s' h = undo_loop-empty file fuel s'
