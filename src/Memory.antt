-- ===== src/Memory.antt =====
-- A page's byte array, `Data [PageSize]byte` of storage.go, and the accessors on it.
mod Slices
mod Words
unfoldable pub use Slices.{read_bytes, write_bytes}
pub use Slices.{
  Memory, Agree, length-read_bytes, write_bytes-outside, read_bytes-ext, read-write_self,
  read-write_outside,
}
unfoldable pub use Words.{get_word, put_word}
pub use Words.{get_word-ext, put_word-outside, get-put_self, get-write_outside, get-put_outside}
