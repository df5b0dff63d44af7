-- ===== src/Recovery/Undo/Ends.antt =====
-- recovery.go's undo pass on a log whose records point backwards.
use mathlib.Core.Path.{subst}
use ultimate_db.Prelude.{
  ℕ, zero, suc, ◌+◌, ◌<◌, ◌≡◌, ◌≢◌, ◌⊎◌, inl, inr, sym, ap, ◌∙◌, refl, false, Option, none, some,
  List, [], ◌∷◌, arith, take, drop, ◌%◌, ◌^◌, nat_eq, nat_eq_iff, leb, if◌then◌else◌, split_if,
  lookup, insert, delete, lookup-insert, lookup-delete, Unique, insert-Unique, nat_key, each_entry,
  Bool-cases,
}
use ultimate_db.Recovery.{
  Outcome, done, failed, panicked, out_of_fuel, not_restored, prev_of, type_of, page_of, key_length,
  old_length, ActiveTable,
}
use ultimate_db.Wal.{log_type_update}
use ultimate_db.Recovery.Undo.{
  pick_step, pick, unlink, sum_lsns, undo_frame, undo_at, then_undo, frame_at, undo_loop,
  run_undo_pass,
}

-- The records from this LSN back can be read, and each points to one before it; or one cannot be
-- read, which ends the pass with an error.
pub data Chained (file : List ℕ) : ℕ → Type 0 where
  start : Chained file 0
  unreadable : (lsn : ℕ) → frame_at lsn file ≡ none → Chained file lsn
  linked :
      (lsn : ℕ) (h payload : List ℕ)
      → frame_at lsn file ≡ some (h, payload)
      → prev_of h < lsn
      → Chained file (prev_of h)
      → Chained file lsn

abbrev pub AllChained : List ℕ → ActiveTable → Type 0
AllChained file active = (txn lsn : ℕ) → lookup txn active ≡ some lsn → Chained file lsn

abbrev Picked : ActiveTable → ℕ × ℕ → ℕ × ℕ → Type 0
Picked active acc r = (r ≡ acc) ⊎ (lookup r.1 active ≡ some r.0)

picked :
    (active : ActiveTable) (acc : ℕ × ℕ)
    → Unique active
    → Picked active acc (each_entry pick_step active acc)
unfolding each_entry lookup
picked [] acc u = inl refl
picked ((k, v) ∷ active) (m, t) u = elim (picked active (pick_step k v (m, t)) u.1) [
  | inr found ↦ inr (ground (arith, found, u.0, ap (λ j. lookup j active), nat_eq_iff k))
  | inl e ↦ elim (Bool-cases (leb m v)) [
    | inl f ↦ inr (
        subst (λ r. lookup r.1 ((k, v) ∷ active) ≡ some r.0)
          (sym (e ∙ ap (λ b. if b then (v, k) else (m, t)) f)) (ground (arith, nat_eq_iff k k)))
    | inr f ↦ inl (e ∙ ap (λ b. if b then (v, k) else (m, t)) f)
  ]
]

insert-sum :
    (k v old : ℕ) (active : ActiveTable)
    → lookup k active ≡ some old
    → sum_lsns (insert k v active) + old ≡ sum_lsns active + v
unfolding insert lookup
insert-sum k v old [] h = absurd (ground (arith, h))
insert-sum k v old ((j, w) ∷ active) h = ground (arith, h, insert-sum k v old active)

delete-absent : (k : ℕ) (active : ActiveTable) → lookup k active ≡ none → delete k active ≡ active
unfolding delete lookup
delete-absent k [] h = refl
delete-absent k ((j, w) ∷ active) h = ground (arith, h, delete-absent k active)

delete-sum :
    (k old : ℕ) (active : ActiveTable)
    → Unique active
    → lookup k active ≡ some old
    → sum_lsns (delete k active) + old ≡ sum_lsns active
unfolding delete lookup
delete-sum k old [] u h = absurd (ground (arith, h))
delete-sum k old ((j, w) ∷ active) u h = elim (Bool-cases (nat_eq j k)) [
  | inl e ↦ ground (
    arith,
    e,
    h,
    delete-absent k active (ap (λ i. lookup i active) (sym ((nat_eq_iff j k).0 e)) ∙ u.0),
  )
  | inr e ↦ ground (arith, e, h, delete-sum k old active u.1)
]

delete-Unique : (k : ℕ) (active : ActiveTable) → Unique active → Unique (delete k active)
unfolding delete
delete-Unique k [] u = tt
delete-Unique k ((j, w) ∷ active) u =
    split_if (λ m. Unique m) (nat_eq j k) (delete k active) ((j, w) ∷ delete k active)
      (λ e. delete-Unique k active u.1)
      (λ e. (
        ground (arith, e, u.0, lookup-delete k j active, nat_eq_iff k j, nat_eq_iff j k),
        delete-Unique k active u.1,
      ))

-- What a round does to the table lowers its sum and keeps what holds of it.
unlinked :
    (file : List ℕ) (txn lsn prev : ℕ) (active : ActiveTable)
    → Unique active
    → AllChained file active
    → lookup txn active ≡ some lsn
    → prev < lsn
    → Chained file prev
    → Unique (unlink txn prev active)
      × AllChained file (unlink txn prev active)
      × (sum_lsns (unlink txn prev active) < sum_lsns active)
unlinked file txn lsn prev active u chained found less back = (
  split_if Unique (nat_eq prev 0) (delete txn active) (insert txn prev active)
      (λ e. delete-Unique txn active u) (λ e. insert-Unique txn prev active u),
  split_if (AllChained file) (nat_eq prev 0) (delete txn active) (insert txn prev active)
      (λ e t l h. chained t l (ground (arith, h, lookup-delete txn t active)))
      (λ e t l h. after_insert t l (sym (lookup-insert txn t prev active) ∙ h)),
  split_if (λ m. sum_lsns m < sum_lsns active) (nat_eq prev 0) (delete txn active)
      (insert txn prev active) (λ e. omega (arith, less, delete-sum txn lsn active u found))
      (λ e. omega (arith, less, insert-sum txn prev lsn active found)),
)
  where
    after_insert :
        (t l : ℕ) → (if nat_eq txn t then some prev else lookup t active) ≡ some l → Chained file l
    after_insert t l h = elim (Bool-cases (nat_eq txn t)) [
      | inl e ↦ subst (Chained file) (ground (arith, h, e)) back
      | inr e ↦ chained t l (ground (arith, h, e))
    ]

picked_entry :
    (active : ActiveTable)
    → Unique active
    → ((pick active).0 ≡ 0) ⊎ (lookup (pick active).1 active ≡ some (pick active).0)
unfolding pick
picked_entry active u = elim (picked active (0, 0) u) [
  | inl e ↦ inl (ap (λ r. r.0) e)
  | inr found ↦ inr found
]

module _ {S : Type 0} (restore_write : ℕ → ℕ → List ℕ → List ℕ → S → Option S) where
  abbrev Ended : Outcome S → Type 0
  Ended (done s) = Unit
  Ended (failed f) = Unit
  Ended panicked = Unit
  Ended out_of_fuel = ⊥

  undo_frame-Ended :
      (txn : ℕ) (h payload : List ℕ) (s : S) → Ended (undo_frame restore_write txn h payload s)
  unfolding undo_frame
  undo_frame-Ended txn h payload s =
      split_if Ended (nat_eq (type_of h) log_type_update) _ (done s)
        (λ e.
          split_if Ended _ panicked _ (λ f. tt)
            (λ f. restored (
              restore_write txn (page_of h) (take (key_length h) payload)
                (drop (key_length h) (take ((key_length h + old_length h) % 2 ^ 32) payload)) s)))
        (λ e. tt)
    where
      restored : (o : Option S) → Ended (elim o [ none ↦ failed not_restored | some s' ↦ done s' ])
      restored none = tt
      restored (some s') = tt

  then_undo-Ended :
      (o : Outcome S) (next : S → Outcome S)
      → Ended o
      → ((s : S) → Ended (next s))
      → Ended (then_undo restore_write o next)
  then_undo-Ended (done s) next h k = k s
  then_undo-Ended (failed f) next h k = tt
  then_undo-Ended panicked next h k = tt
  then_undo-Ended out_of_fuel next h k = absurd h

  -- A round on the record at `lsn`, if the rounds after it end.
  undo_at-Ended :
      (file : List ℕ) (lsn txn : ℕ) (s : S) (next : ℕ → S → Outcome S)
      → Chained file lsn
      → nat_eq lsn 0 ≡ false
      → ((prev : ℕ) (s' : S) → prev < lsn → Chained file prev → Ended (next prev s'))
      → Ended (undo_at restore_write txn (frame_at lsn file) s next)
  undo_at-Ended file lsn txn s next start nz go = absurd (ground (arith, nz))
  undo_at-Ended file lsn txn s next (unreadable _ gone) nz go =
      subst (λ o. Ended (undo_at restore_write txn o s next)) (sym gone) tt
  undo_at-Ended file lsn txn s next (linked _ hd payload here back more) nz go =
      subst (λ o. Ended (undo_at restore_write txn o s next)) (sym here)
        (then_undo-Ended (undo_frame restore_write txn hd payload s) (next (prev_of hd))
          (undo_frame-Ended txn hd payload s) (λ s'. go (prev_of hd) s' back more))

  undo_loop-Ended :
      (fuel : ℕ) (file : List ℕ) (active : ActiveTable) (s : S)
      → Unique active
      → AllChained file active
      → sum_lsns active < fuel
      → Ended (undo_loop restore_write fuel file active s)
  unfolding undo_loop
  undo_loop-Ended zero file active s u chained h = absurd (omega (arith, h))
  undo_loop-Ended (suc fuel) file active s u chained h =
      split_if Ended (nat_eq (pick active).0 0) (done s) _ (λ e. tt)
        (λ e. elim (picked_entry active u) [
          | inl z ↦ absurd (ground (arith, e, z))
          | inr found ↦
              undo_at-Ended file (pick active).0 (pick active).1 s _
                (chained (pick active).1 (pick active).0 found) e
                (λ prev s' back more.
                  let (u', chained', less) =
                    unlinked file (pick active).1 (pick active).0 prev active u chained found back
                      more in
                  undo_loop-Ended fuel file (unlink (pick active).1 prev active) s' u' chained'
                    (omega (arith, less, h)))
        ])

  ended : (o : Outcome S) → Ended o → o ≢ out_of_fuel
  ended o h e = subst Ended e h

  -- On a log in which the records of every open transaction point backwards, down to offset 0 or to
  -- one that cannot be read, the undo pass returns.
  pub run_undo_pass_ends :
      (file : List ℕ) (active : ActiveTable) (s : S)
      → Unique active
      → AllChained file active
      → run_undo_pass restore_write file active s ≢ out_of_fuel
  unfolding run_undo_pass
  run_undo_pass_ends file active s u chained =
      ended (run_undo_pass restore_write file active s)
        (undo_loop-Ended (suc (sum_lsns active)) file active s u chained (omega arith))
