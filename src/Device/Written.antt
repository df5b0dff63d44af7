-- ===== src/Device/Written.antt =====
-- A device byte by byte: what a write leaves.
use ultimate_db.Prelude.{
  ℕ, zero, suc, ◌+◌, ◌-◌, ◌≤◌, ◌≡◌, refl, ◌∙◌, ap, ◌&&◌, List, [], ◌∷◌, ◌++◌, length, take, drop,
  replicate, length-append, length-take, leb, ltb, if◌then◌else◌, arith, none, some, get_elem?,
}
use ultimate_db.Device.{MemDevice, grow, copy_at, write_at}

sub_zero : (i : ℕ) → i - 0 ≡ i
sub_zero i = omega arith

get-append :
    (xs ys : List ℕ) (i : ℕ)
    → get_elem? (xs ++ ys) i
      ≡ (if ltb i (length xs) then get_elem? xs i else get_elem? ys (i - length xs))
get-append [] ys i = ground (arith, ap (get_elem? ys) (sub_zero i))
get-append (x ∷ xs) ys zero = ground arith
get-append (x ∷ xs) ys (suc i) = get-append xs ys i ∙ ground arith

pub get-take :
    (n i : ℕ) (xs : List ℕ) → get_elem? (take n xs) i ≡ (if ltb i n then get_elem? xs i else none)
get-take zero i xs = ground arith
get-take (suc n) i [] = ground arith
get-take (suc n) zero (x ∷ xs) = ground arith
get-take (suc n) (suc i) (x ∷ xs) = get-take n i xs ∙ ground arith

pub get-drop : (n i : ℕ) (xs : List ℕ) → get_elem? (drop n xs) i ≡ get_elem? xs (n + i)
get-drop zero i xs = ap (get_elem? xs) (omega arith)
get-drop (suc n) i [] = refl
get-drop (suc n) i (x ∷ xs) = get-drop n i xs ∙ ap (get_elem? (x ∷ xs)) (suc_out n i)
  where
    suc_out : (n i : ℕ) → suc (n + i) ≡ suc n + i
    suc_out n i = omega arith

get-replicate : (n i : ℕ) → get_elem? (replicate {A = ℕ} n 0) i ≡ (if ltb i n then some 0 else none)
get-replicate zero i = ground arith
get-replicate (suc n) zero = ground arith
get-replicate (suc n) (suc i) = get-replicate n i ∙ ground arith

pub get-past : (xs : List ℕ) (i : ℕ) → length xs ≤ i → get_elem? xs i ≡ none
get-past [] i le = refl
get-past (x ∷ xs) zero le = ground arith
get-past (x ∷ xs) (suc i) le = get-past xs i (omega arith)

length-replicate : (n : ℕ) → length (replicate {A = ℕ} n 0) ≡ n
length-replicate zero = refl
length-replicate (suc n) = ap suc (length-replicate n)

pub length-grow : (bytes : List ℕ) (size : ℕ) → size ≤ length (grow bytes size)
unfolding grow
length-grow bytes size = ground (
  arith,
  length-append bytes (replicate (size - length bytes) 0),
  length-replicate (size - length bytes),
)

get-grow :
    (bytes : List ℕ) (size i : ℕ)
    → get_elem? (grow bytes size) i
      ≡ (if ltb i (length bytes) then get_elem? bytes i else if ltb i size then some 0 else none)
unfolding grow
get-grow bytes size i = ground (
  arith,
  get-append bytes (replicate (size - length bytes) 0) i,
  get-replicate (size - length bytes) (i - length bytes),
  get-past bytes i,
)

get-copy_at :
    (bytes p : List ℕ) (off i : ℕ)
    → off + length p ≤ length bytes
    → get_elem? (copy_at bytes off p) i
      ≡ (if leb off i && ltb i (off + length p) then get_elem? p (i - off) else get_elem? bytes i)
unfolding copy_at
get-copy_at bytes p off i le =
    get-append (take off bytes) (p ++ drop (off + length p) bytes) i
    ∙ ground (
      arith,
      length-take off bytes,
      get-take off i bytes,
      get-append p (drop (off + length p) bytes) (i - length (take off bytes)),
      get-drop (off + length p) (i - off - length p) bytes,
      rejoin off (length p) i,
    )
  where
    rejoin : (off n i : ℕ) → off ≤ i → n ≤ i - off → off + n + (i - off - n) ≡ i
    rejoin off n i h k = omega arith

-- Every byte of a device after a write: the written ones, the old ones, and zeros in a gap.
pub get-write_at :
    (d : MemDevice) (p : List ℕ) (off i : ℕ)
    → get_elem? (write_at d p off).bytes i ≡ (
        if leb off i && ltb i (off + length p)
        then get_elem? p (i - off)
        else if ltb i (length d.bytes)
        then get_elem? d.bytes i
        else if ltb i (off + length p)
        then some 0
        else none)
unfolding write_at
get-write_at d p off i =
    get-copy_at (grow d.bytes (off + length p)) p off i (length-grow d.bytes (off + length p))
    ∙ ground (arith, get-grow d.bytes (off + length p) i)
