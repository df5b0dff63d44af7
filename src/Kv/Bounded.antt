-- ===== src/Kv/Bounded.antt =====
-- What the recovery from a page of another layout may yield.
use mathlib.Core.Path.{subst}
use ultimate_db.Prelude.{
  ℕ, suc, ◌+◌, ◌^◌, ◌≤◌, ◌<◌, ◌≡◌, refl, sym, Bool, true, false, ◌||◌, ◌&&◌, not, none, some, List,
  [], ◌∷◌, length, arith, if◌then◌else◌, All, ltb, leb, nat_eq, take, drop, length-take,
  length-drop, lookup, insert, bytes_key, bytes_eq,
}
use ultimate_db.Kv.Recovered.{
  Entries, is_recoverable_data_key, recover_kv_entry, slotted_record, recover_found,
  recover_slotted_kv_from_raw, word_at, size_of,
}

-- The key of a durable record, and sizes that fit a page.
abbrev pub Bounded : List ℕ × List ℕ → Type 0
Bounded (key, val) =
    (is_recoverable_data_key key ≡ true)
    × (length key ≤ 256)
    × (0 < length val)
    × (length val ≤ 16384)

if-All :
    (c : Bool) (xs ys : Entries)
    → All Bounded xs
    → All Bounded ys
    → All Bounded (if c then xs else ys)
if-All true xs ys h k = h
if-All false xs ys h k = k

insert-Bounded :
    (key val : List ℕ) (out : Entries)
    → Bounded (key, val)
    → All Bounded out
    → All Bounded (insert key val out)
unfolding insert
insert-Bounded key val [] b h = (b, tt)
insert-Bounded key val ((k, v) ∷ out) b h =
    if-All (bytes_eq k key) ((key, val) ∷ out) ((k, v) ∷ insert key val out) (b, h.1)
      (h.0, insert-Bounded key val out b h.1)

recover_kv_entry-Bounded :
    (out : Entries) (key val : List ℕ)
    → Bounded (key, val)
    → All Bounded out
    → All Bounded (recover_kv_entry out key val)
unfolding recover_kv_entry
recover_kv_entry-Bounded out key val b h =
    if-All (nat_eq (length key) 0 || nat_eq (length val) 0) out _ h (
      if-All (ltb (size_of (lookup key out)) (length val)) (insert key val out) out
        (insert-Bounded key val out b h) h)

when_good :
    (out : Entries) (r : List ℕ × List ℕ) (a b c : Bool)
    → All Bounded out
    → (a ≡ false → c ≡ false → All Bounded (recover_found out (some r)))
    → All Bounded
        (recover_found out (if a then none else if b then none else if c then none else some r))
unfolding recover_found
when_good out r true b c h good = h
when_good out r false true c h good = h
when_good out r false false true h good = h
when_good out r false false false h good = good refl refl

module _ (now : ℕ) (raw : List ℕ) where
  abbrev k : ℕ
  k = word_at 4 raw 16

  abbrev v : ℕ
  v = word_at 4 raw 20

  abbrev key_at : List ℕ
  key_at = take k (drop 24 raw)

  abbrev value_at : List ℕ
  value_at = take v (drop (24 + k) raw)

  abbrev bad_sizes : Bool
  bad_sizes = nat_eq (word_at 8 raw 0) 0 || nat_eq k 0 || ltb 256 k || nat_eq v 0 || ltb 16384 v

  abbrev expired : Bool
  expired =
      not (nat_eq (word_at 8 raw 8) 0)
      && (leb (2 ^ 63) (word_at 8 raw 8) || leb (word_at 8 raw 8) now)

  abbrev bad_record : Bool
  bad_record = ltb (length raw) (24 + k + v) || not (is_recoverable_data_key key_at)

  slotted_record_tests : slotted_record now raw ≡ (
      if bad_sizes
      then none
      else if expired
      then none
      else if bad_record
      then none
      else some (key_at, value_at))
  unfolding slotted_record
  slotted_record_tests = refl

  bounds : bad_sizes ≡ false → bad_record ≡ false → Bounded (key_at, value_at)
  bounds sizes good = (
    ground (arith, good),
    ground (arith, sizes, length-take k (drop 24 raw)),
    ground (arith, sizes, good, length-take v (drop (24 + k) raw), length-drop (24 + k) raw),
    ground (arith, sizes, length-take v (drop (24 + k) raw)),
  )

  slotted_record-Bounded :
      (out : Entries) → All Bounded out → All Bounded (recover_found out (slotted_record now raw))
  unfolding recover_found
  slotted_record-Bounded out h =
      subst (λ o. All Bounded (recover_found out o)) (sym slotted_record_tests)
        (when_good out (key_at, value_at) bad_sizes expired bad_record h
          (λ e e'. recover_kv_entry-Bounded out key_at value_at (bounds e e') h))

recover_slotted-Bounded :
    (now : ℕ) (raw : List ℕ) (out : Entries)
    → All Bounded out
    → All Bounded (recover_slotted_kv_from_raw now raw out)
unfolding recover_slotted_kv_from_raw
recover_slotted-Bounded now [] out h = h
recover_slotted-Bounded now (b ∷ raw) out h =
    if-All (ltb 24 (suc (length raw)))
      (recover_slotted_kv_from_raw now raw (recover_found out (slotted_record now (b ∷ raw)))) out
      (recover_slotted-Bounded now raw (recover_found out (slotted_record now (b ∷ raw)))
        (slotted_record-Bounded now (b ∷ raw) out h))
      h

-- Whatever the bytes of the page are, every record that is recovered from them has a key with a
-- durable prefix of at most 256 bytes and a value of 1 to 16384 bytes.
pub recover_slotted_kv_from_raw-Bounded :
    (now : ℕ) (raw : List ℕ) → All Bounded (recover_slotted_kv_from_raw now raw [])
recover_slotted_kv_from_raw-Bounded now raw = recover_slotted-Bounded now raw [] tt
