-- ===== src/Device.antt =====
-- vfs.go's MemDevice, the block device in memory, and storage.go's DiskManager on it.
pub mod Written
pub mod Pages
use ultimate_db.Prelude.{
  ℕ, ◌+◌, ◌-◌, ◌*◌, Bool, true, false, List, [], ◌∷◌, ◌++◌, length, take, drop, replicate, leb, ltb,
  if◌then◌else◌,
}
use ultimate_db.Page.{page_size}

pub record MemDevice : Type 0 where
  pub bytes : List ℕ

abbrev pub new_mem_device : MemDevice
new_mem_device = record { bytes = [] }

-- ReadAt of a buffer of `n` bytes: the bytes copied, and whether the error is io.EOF.
unfoldable pub read_at : MemDevice → ℕ → ℕ → List ℕ × Bool
read_at d n off =
    if leb (length d.bytes) off
    then ([], true)
    else (take n (drop off d.bytes), ltb (length (take n (drop off d.bytes))) n)

-- The new array is longer by zeros.
unfoldable pub grow : List ℕ → ℕ → List ℕ
grow bytes size =
    if ltb (length bytes) size then bytes ++ replicate (size - length bytes) 0 else bytes

-- copy(bytes[off:], p), where there is room
unfoldable pub copy_at : List ℕ → ℕ → List ℕ → List ℕ
copy_at bytes off p = take off bytes ++ (p ++ drop (off + length p) bytes)

unfoldable pub write_at : MemDevice → List ℕ → ℕ → MemDevice
unfolding grow copy_at
write_at d p off = record { bytes = copy_at (grow d.bytes (off + length p)) off p }

unfoldable pub read_page : MemDevice → ℕ → List ℕ × Bool
unfolding read_at
read_page d id = read_at d page_size (id * page_size)

unfoldable pub write_page : MemDevice → ℕ → List ℕ → MemDevice
unfolding write_at
write_page d id p = write_at d p (id * page_size)
