-- ===== src/Memory/Words.antt =====
-- The little-endian words of a byte array: `binary.LittleEndian.Uint32(p.Data[off:off+4])` and
-- its siblings, for a width of `w` bytes.
use mathlib.Core.Path.{subst}
use ultimate_db.Prelude.{ℕ, ◌+◌, ◌^◌, ◌≤◌, ◌<◌, ◌≡◌, ap, ◌∙◌, ◌⊎◌, List, arith, length}
use ultimate_db.Bytes.{le_encode, le_decode, length-le_encode, decode-encode}
use ultimate_db.Memory.Slices.{
  Memory, Agree, read_bytes, write_bytes, read_bytes-ext, read-write_self, read-write_outside,
  write_bytes-outside,
}

unfoldable pub get_word : ℕ → Memory → ℕ → ℕ
get_word w m off = le_decode (read_bytes m off w)

unfoldable pub put_word : ℕ → Memory → ℕ → ℕ → Memory
put_word w m off v = write_bytes m off (le_encode w v)

pub get_word-ext :
    {m m' : Memory} (w off : ℕ) → Agree off (off + w) m m' → get_word w m off ≡ get_word w m' off
unfolding get_word
get_word-ext w off h = ap le_decode (read_bytes-ext off w h)

pub put_word-outside :
    (w : ℕ) (m : Memory) (off v i : ℕ) → (i < off) ⊎ (off + w ≤ i) → put_word w m off v i ≡ m i
unfolding put_word
put_word-outside w m off v i h =
    write_bytes-outside m off (le_encode w v) i (omega (arith, length-le_encode w v))

pub get-put_self :
    (w : ℕ) (m : Memory) (off v : ℕ) → v < 256 ^ w → get_word w (put_word w m off v) off ≡ v
unfolding get_word put_word
get-put_self w m off v h =
    subst (λ n. le_decode (read_bytes (write_bytes m off (le_encode w v)) off n) ≡ v)
      (length-le_encode w v)
      (ap le_decode (read-write_self m off (le_encode w v)) ∙ decode-encode w v h)

pub get-write_outside :
    (w : ℕ) (m : Memory) (off : ℕ) (bs : List ℕ) (at : ℕ)
    → (at + w ≤ off) ⊎ (off + length bs ≤ at)
    → get_word w (write_bytes m off bs) at ≡ get_word w m at
unfolding get_word
get-write_outside w m off bs at h = ap le_decode (read-write_outside m off bs at w h)

pub get-put_outside :
    (w : ℕ) (m : Memory) (off k v at : ℕ)
    → (at + w ≤ off) ⊎ (off + k ≤ at)
    → get_word w (put_word k m off v) at ≡ get_word w m at
unfolding put_word
get-put_outside w m off k v at h =
    get-write_outside w m off (le_encode k v) at (omega (arith, length-le_encode k v))
