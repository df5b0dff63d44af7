-- ===== src/Recovery/Torn.antt =====
-- The analysis pass on files that no writer left whole: torn frames, and arbitrary bytes.
use mathlib.Core.Path.{subst}
use ultimate_db.Prelude.{
  ℕ, zero, suc, ◌+◌, ◌-◌, ◌^◌, ◌≤◌, ◌<◌, ◌≡◌, refl, ◌∙◌, ap, sym, List, [], ◌∷◌, ◌++◌, length, take,
  drop, length-append, length-drop, length-take, arith, if◌then◌else◌, leb, nat_eq, All, ◌⊎◌, inl,
  inr, Bool-cases, ltb, ltb→lt, ltb→ge, leb→le, leb→gt, true, false, nat_key,
}
use ultimate_db.Wal.{WalEntry, head, entry_size, payload, write_entry, write_entries}
use ultimate_db.Wal.Frames.{Fits, length-head, length-write_entry, length-payload}
use ultimate_db.Recovery.{
  ReadFull, eof, unexpected_eof, full, read_full, payload_length, Outcome, Fault, done, failed,
  short_read, corrupted_payload, crc_mismatch, ActiveTable, track, analysis_loop, run_analysis_pass,
  field, lsn_of, txn_of, type_of,
}
use ultimate_db.Recovery.Analysis.{
  analysis-write_entries, length-write_entries, track_all, suc-+, fuel_split,
}
use ultimate_db.Recovery.Frames.{read_full-append, payload_length-head}

take-append_past : (xs ys : List ℕ) (k : ℕ) → take (length xs + k) (xs ++ ys) ≡ xs ++ take k ys
take-append_past [] ys k = ap (λ n. take n ys) (omega arith)
take-append_past (x ∷ xs) ys k =
    ap (λ n. take n (x ∷ (xs ++ ys))) (suc-+ (length xs) k)
    ∙ ap (λ r. x ∷ r) (take-append_past xs ys k)

-- A read that the file is too short for.
short_read_lem :
    (n : ℕ) (bs : List ℕ)
    → length bs < n
    → (read_full n bs ≡ eof) ⊎ (read_full n bs ≡ unexpected_eof)
unfolding read_full
short_read_lem n bs lt = elim (Bool-cases (nat_eq (length bs) 0)) [
  | inl e ↦ inl (ground (arith, e, lt))
  | inr e ↦ inr (ground (arith, e, lt))
]

short_nonempty :
    (n : ℕ) (bs : List ℕ) → length bs < n → 0 < length bs → read_full n bs ≡ unexpected_eof
unfolding read_full
short_nonempty n bs lt pos = ground arith

module _ (crc : List ℕ → ℕ) where
  cut_header :
      (fuel : ℕ) (bs : List ℕ) (active : ActiveTable)
      → read_full 49 bs ≡ unexpected_eof
      → analysis_loop crc (suc fuel) bs active ≡ failed short_read
  unfolding analysis_loop
  cut_header fuel bs active e = ground (arith, e)

  cut_payload :
      (fuel : ℕ) (bs h rest : List ℕ) (active : ActiveTable)
      → read_full 49 bs ≡ full h rest
      → (read_full (payload_length h) rest ≡ eof)
        ⊎ (read_full (payload_length h) rest ≡ unexpected_eof)
      → analysis_loop crc (suc fuel) bs active ≡ failed corrupted_payload
  unfolding analysis_loop
  cut_payload fuel bs h rest active e (inl i) = ground (arith, e, i)
  cut_payload fuel bs h rest active e (inr i) = ground (arith, e, i)

  write_entry-parts : (e : WalEntry) → write_entry crc e ≡ head crc e ++ payload e
  unfolding write_entry
  write_entry-parts e = refl

  take-write_entry :
      (e : WalEntry) (n : ℕ)
      → 49 ≤ n
      → take n (write_entry crc e) ≡ head crc e ++ take (n - 49) (payload e)
  take-write_entry e n le =
      ap (λ k. take k (write_entry crc e)) (split (length-head crc e))
      ∙ ap (take (length (head crc e) + (n - 49))) (write_entry-parts e)
      ∙ take-append_past (head crc e) (payload e) (n - 49)
    where
      split : length (head crc e) ≡ 49 → n ≡ length (head crc e) + (n - 49)
      split h = omega arith

  torn_frame :
      (fuel : ℕ) (e : WalEntry) (n : ℕ) (active : ActiveTable)
      → Fits e
      → 0 < n
      → n < entry_size e
      → analysis_loop crc (suc fuel) (take n (write_entry crc e)) active
        ≡ failed (if ltb n 49 then short_read else corrupted_payload)
  torn_frame fuel e n active f pos lt = elim (Bool-cases (ltb n 49)) [
    | inl small ↦ rw small (
        cut_header fuel (take n (write_entry crc e)) active
          (short_nonempty 49 _ (omega (arith, size, ltb→lt _ _ small)) (omega (arith, size))))
    | inr big ↦ rw big (
        cut_payload fuel (take n (write_entry crc e)) (head crc e) (take (n - 49) (payload e))
          active
          (ap (read_full 49) (take-write_entry e n (ltb→ge _ _ big))
            ∙ ap (λ k. read_full k (head crc e ++ take (n - 49) (payload e)))
                (sym (length-head crc e))
            ∙ read_full-append (head crc e) (take (n - 49) (payload e)))
          (short_read_lem (payload_length (head crc e)) (take (n - 49) (payload e)) (
            omega (
              arith,
              length-take (n - 49) (payload e),
              payload_length-head crc e f,
              length-payload e,
              lt,
              ltb→ge _ _ big,
            ))))
  ]
    where
      size : length (take n (write_entry crc e)) ≡ n
      size = omega (arith, length-take n (write_entry crc e), length-write_entry crc e, lt)

-- The bytes after a read.
abbrev left : ReadFull → ℕ
left eof = 0
left unexpected_eof = 0
left (full h rest) = length rest

read_full-enough :
    (n : ℕ) (bs : List ℕ) → leb n (length bs) ≡ true → read_full n bs ≡ full (take n bs) (drop n bs)
unfolding read_full
read_full-enough n bs b = ground (arith, b)

read_full-left :
    (n : ℕ) (bs h rest : List ℕ) → 0 < n → read_full n bs ≡ full h rest → length rest < length bs
read_full-left n bs h rest pos e = elim (Bool-cases (leb n (length bs))) [
  | inl b ↦
      omega (arith, ap left (sym e ∙ read_full-enough n bs b), length-drop n bs, pos, leb→le _ _ b)
  | inr b ↦ elim (short_read_lem n bs (leb→gt _ _ b)) [
    | inl i ↦ ground (arith, e, i)
    | inr i ↦ ground (arith, e, i)
  ]
]

read_full-left_le :
    (n : ℕ) (bs h rest : List ℕ) → read_full n bs ≡ full h rest → length rest ≤ length bs
read_full-left_le n bs h rest e = elim (Bool-cases (leb n (length bs))) [
  | inl b ↦ omega (arith, ap left (sym e ∙ read_full-enough n bs b), length-drop n bs)
  | inr b ↦ elim (short_read_lem n bs (leb→gt _ _ b)) [
    | inl i ↦ ground (arith, e, i)
    | inr i ↦ ground (arith, e, i)
  ]
]

-- The outcome of a read, with its equation.
read_full-cases :
    (n : ℕ) (bs : List ℕ)
    → (read_full n bs ≡ eof)
      ⊎ ((read_full n bs ≡ unexpected_eof)
          ⊎ ((h : List ℕ) × (rest : List ℕ) × (read_full n bs ≡ full h rest)))
read_full-cases n bs = elim (Bool-cases (leb n (length bs))) [
  | inl b ↦ inr (inr (take n bs, drop n bs, read_full-enough n bs b))
  | inr b ↦ elim (short_read_lem n bs (leb→gt _ _ b)) [ inl i ↦ inl i | inr i ↦ inr (inl i) ]
]

abbrev pub Ends : Outcome ActiveTable → Type 0
Ends o = ((active : ActiveTable) × (o ≡ done active)) ⊎ ((fault : Fault) × (o ≡ failed fault))

module _ (crc : List ℕ → ℕ) where
  loop_eof :
      (fuel : ℕ) (bs : List ℕ) (active : ActiveTable)
      → read_full 49 bs ≡ eof
      → analysis_loop crc (suc fuel) bs active ≡ done active
  unfolding analysis_loop
  loop_eof fuel bs active e = ground (arith, e)

  loop_mismatch :
      (fuel : ℕ) (bs h rest p next : List ℕ) (active : ActiveTable)
      → read_full 49 bs ≡ full h rest
      → read_full (payload_length h) rest ≡ full p next
      → nat_eq (crc (drop 4 h ++ p)) (field h 0 4) ≡ false
      → analysis_loop crc (suc fuel) bs active ≡ failed crc_mismatch
  unfolding analysis_loop
  loop_mismatch fuel bs h rest p next active e₁ e₂ e₃ = ground (arith, e₁, e₂, e₃)

  loop_match :
      (fuel : ℕ) (bs h rest p next : List ℕ) (active : ActiveTable)
      → read_full 49 bs ≡ full h rest
      → read_full (payload_length h) rest ≡ full p next
      → nat_eq (crc (drop 4 h ++ p)) (field h 0 4) ≡ true
      → analysis_loop crc (suc fuel) bs active
        ≡ analysis_loop crc fuel next (track (type_of h) (txn_of h) (lsn_of h) active)
  unfolding analysis_loop
  loop_match fuel bs h rest p next active e₁ e₂ e₃ = ground (arith, e₁, e₂, e₃)

  analysis-Ends :
      (fuel : ℕ) (bs : List ℕ) (active : ActiveTable)
      → length bs < fuel
      → Ends (analysis_loop crc fuel bs active)
  analysis-Ends zero bs active lt = ground arith
  analysis-Ends (suc fuel) bs active lt = elim (read_full-cases 49 bs) [
    | inl e ↦ inl (active, loop_eof fuel bs active e)
    | inr (inl e) ↦ inr (short_read, cut_header crc fuel bs active e)
    | inr (inr (h, rest, e)) ↦ elim (read_full-cases (payload_length h) rest) [
      | inl i ↦ inr (corrupted_payload, cut_payload crc fuel bs h rest active e (inl i))
      | inr (inl i) ↦ inr (corrupted_payload, cut_payload crc fuel bs h rest active e (inr i))
      | inr (inr (p, next, i)) ↦ elim (Bool-cases (nat_eq (crc (drop 4 h ++ p)) (field h 0 4))) [
        | inl m ↦ subst Ends (sym (loop_match fuel bs h rest p next active e i m)) (
            analysis-Ends fuel next (track (type_of h) (txn_of h) (lsn_of h) active) (
              omega (
                arith,
                lt,
                read_full-left 49 bs h rest (omega arith) e,
                read_full-left_le (payload_length h) rest p next i,
              )))
        | inr m ↦ inr (crc_mismatch, loop_mismatch fuel bs h rest p next active e i m)
      ]
    ]
  ]

  -- The analysis pass ends on every file, with a table or with an error: its fuel is enough.
  pub run_analysis_pass-Ends : (file : List ℕ) → Ends (run_analysis_pass crc file)
  unfolding run_analysis_pass
  run_analysis_pass-Ends file = analysis-Ends (suc (length file)) file [] (omega arith)

  -- A log whose last frame was cut short, as a crash leaves it, is refused as a whole.
  pub run_analysis_pass-torn :
      (small : (bs : List ℕ) → crc bs < 2 ^ 32) (es : List WalEntry) (e : WalEntry) (n : ℕ)
      → All Fits es
      → Fits e
      → 0 < n
      → n < entry_size e
      → run_analysis_pass crc (write_entries crc es ++ take n (write_entry crc e))
        ≡ failed (if ltb n 49 then short_read else corrupted_payload)
  unfolding run_analysis_pass
  run_analysis_pass-torn small es e n fs f pos lt =
      ap (λ k. analysis_loop crc k file []) (fuel_split enough)
      ∙ analysis-write_entries crc small es (suc (length file - length es))
          (take n (write_entry crc e)) [] fs
      ∙ torn_frame crc (length file - length es) e n (track_all es []) f pos lt
    where
      file : List ℕ
      file = write_entries crc es ++ take n (write_entry crc e)

      enough : length es ≤ length file
      enough = omega (
        arith,
        length-append (write_entries crc es) (take n (write_entry crc e)),
        length-write_entries crc small es,
      )
