-- ===== src/Memory/Slices.antt =====
-- Slices of a byte array: `Data[off:off+n]` read, and `copy(Data[off:], bs)`.
use ultimate_db.Prelude.{
  ℕ, zero, suc, ◌+◌, ◌≤◌, ◌<◌, ◌≡◌, refl, ap, List, [], ◌∷◌, arith, length, nat_eq, if◌then◌else◌,
  ◌⊎◌,
}

-- An index at or past the page's size is never used by the code: Go panics there.
abbrev pub Memory : Type 0
Memory = ℕ → ℕ

unfoldable pub read_bytes : Memory → ℕ → ℕ → List ℕ
read_bytes m off zero = []
read_bytes m off (suc n) = m off ∷ read_bytes m (off + 1) n

unfoldable pub write_bytes : Memory → ℕ → List ℕ → Memory
write_bytes m off [] i = m i
write_bytes m off (b ∷ bs) i = if nat_eq i off then b else write_bytes m (off + 1) bs i

pub length-read_bytes : (m : Memory) (off n : ℕ) → length (read_bytes m off n) ≡ n
unfolding read_bytes
length-read_bytes m off zero = refl
length-read_bytes m off (suc n) = ap suc (length-read_bytes m (off + 1) n)

-- Two memories that agree on a range of addresses.
abbrev pub Agree : ℕ → ℕ → Memory → Memory → Type 0
Agree lo hi m m' = (i : ℕ) → lo ≤ i → i < hi → m i ≡ m' i

-- A write changes nothing outside its slice.
pub write_bytes-outside :
    (m : Memory) (off : ℕ) (bs : List ℕ) (i : ℕ)
    → (i < off) ⊎ (off + length bs ≤ i)
    → write_bytes m off bs i ≡ m i
unfolding write_bytes
write_bytes-outside m off [] i h = refl
write_bytes-outside m off (b ∷ bs) i h = ground (arith, write_bytes-outside m (off + 1) bs i)

pub read_bytes-ext :
    {m m' : Memory} (off n : ℕ)
    → Agree off (off + n) m m'
    → read_bytes m off n ≡ read_bytes m' off n
unfolding read_bytes
read_bytes-ext off zero h = refl
read_bytes-ext off (suc n) h = ground (
  arith,
  h off (omega arith) (omega arith),
  read_bytes-ext (off + 1) n (λ i p q. h i (omega arith) (omega arith)),
)

pub read-write_self :
    (m : Memory) (off : ℕ) (bs : List ℕ) → read_bytes (write_bytes m off bs) off (length bs) ≡ bs
unfolding read_bytes write_bytes
read-write_self m off [] = refl
read-write_self m off (b ∷ bs) = ground (
  arith,
  read_bytes-ext {m = write_bytes m off (b ∷ bs)} {m' = write_bytes m (off + 1) bs} (off + 1)
      (length bs) (λ i p q. ground arith),
  read-write_self m (off + 1) bs,
)

pub read-write_outside :
    (m : Memory) (off : ℕ) (bs : List ℕ) (at n : ℕ)
    → (at + n ≤ off) ⊎ (off + length bs ≤ at)
    → read_bytes (write_bytes m off bs) at n ≡ read_bytes m at n
read-write_outside m off bs at n h =
    read_bytes-ext at n (λ i p q. write_bytes-outside m off bs i (omega arith))
