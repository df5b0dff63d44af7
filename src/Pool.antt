-- ===== src/Pool.antt =====
-- storage.go's BufferPool with lru_policy.go's LRUEvictionPolicy, on a block device and a checksum
-- given as parameters. The pool's mutex orders the calls, so a call is one step; the metrics only
-- count.
pub mod Stuck
pub mod Flush
pub mod Victims
pub mod Pinned
use ultimate_db.Prelude.{
  ℕ, zero, suc, ◌+◌, ◌*◌, Bool, true, false, ◌&&◌, ◌||◌, not, Option, none, some, List, [], ◌∷◌,
  ◌++◌, length, ltb, leb, nat_eq, if◌then◌else◌, ℤ, pos, negsuc, Map, lookup, insert, delete,
  nat_key,
}
use ultimate_db.Memory.{Memory}
use ultimate_db.Page.{page_size, init, get_checksum, set_checksum}

-- LRUEvictionPolicy: the list from the front; the map has an element for each id of the list.
unfoldable pub remove : ℕ → List ℕ → List ℕ
remove id [] = []
remove id (i ∷ order) = let rest = remove id order in if nat_eq id i then rest else i ∷ rest

unfoldable pub record_access : List ℕ → ℕ → List ℕ
unfolding remove
record_access order id = id ∷ remove id order

-- The element at the back, and the list without it.
unfoldable pub evict : List ℕ → Option (ℕ × List ℕ)
evict [] = none
evict (i ∷ order) = elim (evict order) [
  | none ↦ some (i, [])
  | some (id, rest) ↦ some (id, i ∷ rest)
]

-- DiskManager on a device: the page, zeros where the device ends, and whether there was no error
-- but io.EOF; a write and whether it had no error; the number of whole pages of Stat.
pub record BlockDevice (D : Type 0) : Type 0 where
  pub read_block : D → ℕ → Memory × Bool
  pub write_block : D → ℕ → Memory → D × Bool
  pub block_count : D → Option ℕ

pub record Frame : Type 0 where
  pub id : ℕ
  pub pin_count : ℤ
  pub is_dirty : Bool
  pub bytes : Memory

pub record BufferPool (D : Type 0) : Type 0 where
  pub disk : D
  pub pool_size : ℕ
  pub frames : ℕ → Frame
  pub page_table : Map ℕ ℕ
  pub order : List ℕ
  pub free_list : List ℕ

-- The outcome of getAvailableFrame: `spinning` is a loop longer than the fuel.
pub data Available (D : Type 0) : Type 0 where
  frame : BufferPool D → ℕ → Available D
  write_failed exhausted : BufferPool D → Available D
  spinning : Available D

-- The outcome of FetchPage and NewPage.
pub data Fetched (D : Type 0) : Type 0 where
  page : BufferPool D → ℕ → Fetched D
  fetch_failed : BufferPool D → Fetched D
  endless : Fetched D

-- PinCount.Add(1), PinCount.Add(-1) and PinCount.Load() > 0
unfoldable pub pin : ℤ → ℤ
pin (pos n) = pos (suc n)
pin (negsuc zero) = pos zero
pin (negsuc (suc n)) = negsuc n

unfoldable pub unpin : ℤ → ℤ
unpin (pos zero) = negsuc zero
unpin (pos (suc n)) = pos n
unpin (negsuc n) = negsuc (suc n)

unfoldable pub is_pinned : ℤ → Bool
is_pinned (pos zero) = false
is_pinned (pos (suc n)) = true
is_pinned (negsuc n) = false

unfoldable pub is_btree_kv_page : ℕ → Bool
is_btree_kv_page id = leb 1000 id

-- The first `n` bytes are zeros.
unfoldable pub all_zero : Memory → ℕ → Bool
all_zero m zero = true
all_zero m (suc n) = nat_eq (m n) 0 && all_zero m n

unfoldable pub free_frames : ℕ → ℕ → List ℕ
free_frames from zero = []
free_frames from (suc n) = from ∷ free_frames (suc from) n

unfoldable pub new_buffer_pool : {D : Type 0} → D → ℕ → BufferPool D
unfolding free_frames
new_buffer_pool disk size = record {
  disk = disk;
  pool_size = size;
  frames = λ i. record { id = 0; pin_count = pos 0; is_dirty = false; bytes = λ j. 0 };
  page_table = [];
  order = [];
  free_list = free_frames 0 size;
}

module _ {D : Type 0} where
  unfoldable pub set_frame : BufferPool D → ℕ → Frame → BufferPool D
  set_frame bp i f = record bp { frames = λ j. if nat_eq j i then f else bp.frames j }

  unfoldable pub unpin_page : BufferPool D → ℕ → Bool → BufferPool D
  unfolding lookup set_frame unpin
  unpin_page bp id dirty = elim (lookup id bp.page_table) [
    | none ↦ bp
    | some i ↦
        let f = bp.frames i in
        set_frame bp i (record f { pin_count = unpin f.pin_count; is_dirty = f.is_dirty || dirty })
  ]

  -- The number of dirty pages of the table.
  unfoldable pub dirty_count : BufferPool D → Map ℕ ℕ → ℕ
  dirty_count bp [] = 0
  dirty_count bp ((id, i) ∷ table) =
      let n = dirty_count bp table in if (bp.frames i).is_dirty then suc n else n

module _ {D : Type 0} (device : BlockDevice D) (compute_checksum : Memory → ℕ) where
  -- The bytes that are written: a slotted page gets its checksum.
  unfoldable pub sealed : Frame → Memory
  unfolding is_btree_kv_page set_checksum
  sealed f =
      if is_btree_kv_page f.id then f.bytes else set_checksum f.bytes (compute_checksum f.bytes)

  -- One dirty page of FlushAll, pinned while it is written, and whether it was written.
  unfoldable pub flush_frame : BufferPool D → ℕ → BufferPool D × Bool
  unfolding sealed set_frame
  flush_frame bp i =
      let f = bp.frames i in
      let (disk', written) = device.write_block bp.disk f.id (sealed f) in
      (
        set_frame (record bp { disk = disk' }) i
            (record f { bytes = sealed f; is_dirty = f.is_dirty && not written }),
        written,
      )

  -- The dirty pages are those when the call starts; the reply tells whether all were written.
  unfoldable pub flush_pages : BufferPool D → Map ℕ ℕ → BufferPool D × Bool
  unfolding flush_frame
  flush_pages bp [] = (bp, true)
  flush_pages bp ((id, i) ∷ table) =
      let flushed = flush_frame bp i in
      let done = flush_pages flushed.0 table in
      let skipped = flush_pages bp table in
      if (bp.frames i).is_dirty then (done.0, flushed.1 && done.1) else skipped

  unfoldable pub flush_all : BufferPool D → BufferPool D × Bool
  unfolding flush_pages
  flush_all bp = flush_pages bp bp.page_table

  -- The loop over the evictor's victims.
  unfoldable pub victim_loop : ℕ → BufferPool D → Available D
  unfolding evict lookup is_pinned record_access sealed set_frame delete
  victim_loop zero bp = spinning
  victim_loop (suc fuel) bp = elim (evict bp.order) [
    | none ↦ exhausted bp
    | some (id, order) ↦
        let bp₁ = record bp { order = order } in
        let again = victim_loop fuel (record bp { order = record_access order id }) in
        let skip = victim_loop fuel bp₁ in
        elim (lookup id bp.page_table) [
          | none ↦ skip
          | some i ↦
              let f = bp.frames i in
              let (disk', written) = device.write_block bp.disk f.id (sealed f) in
              let bp₂ = set_frame (record bp₁ { disk = disk' }) i (record f { bytes = sealed f }) in
              if is_pinned f.pin_count
              then again
              else if not f.is_dirty
              then frame (record bp₁ { page_table = delete id bp.page_table }) i
              else if written
              then frame (record bp₂ { page_table = delete id bp.page_table }) i
              else write_failed (record bp₂ { order = record_access order id })
        ]
  ]

  unfoldable pub take_frame : ℕ → BufferPool D → Available D
  unfolding victim_loop
  take_frame fuel bp = elim bp.free_list [
    | [] ↦ victim_loop fuel bp
    | i ∷ free ↦ frame (record bp { free_list = free }) i
  ]

  -- At 80% of dirty frames all pages are flushed first. The source gives up the mutex for the time
  -- of that flush; the model takes the call as one step.
  unfoldable pub get_available_frame : ℕ → BufferPool D → Available D
  unfolding dirty_count flush_all take_frame
  get_available_frame fuel bp =
      let clean = take_frame fuel bp in
      let flushed = take_frame fuel (flush_all bp).0 in
      if ltb 0 bp.pool_size && leb (4 * bp.pool_size) (5 * dirty_count bp bp.page_table)
      then flushed
      else clean

  -- A page that is not in the pool, in frame `i`: the frame goes back to the free list if the read
  -- fails or the checksum of a slotted page is wrong.
  unfoldable pub load_page : BufferPool D → ℕ → ℕ → Fetched D
  unfolding set_frame all_zero is_btree_kv_page get_checksum insert record_access
  load_page bp i id =
      let (bytes, was_read) = device.read_block bp.disk id in
      let bp' =
        set_frame bp i (record { id = id; pin_count = pos 1; is_dirty = false; bytes = bytes }) in
      let stored = get_checksum bytes in
      let checked = not (all_zero bytes page_size) && not (is_btree_kv_page id) in
      if not was_read
        || (checked && not (nat_eq stored (compute_checksum bytes)) && not (nat_eq stored 0))
      then fetch_failed (record bp' { free_list = bp.free_list ++ i ∷ [] })
      else page
          (record bp' { page_table = insert id i bp.page_table; order = record_access bp.order id })
          i

  unfoldable pub fetch_page : ℕ → BufferPool D → ℕ → Fetched D
  unfolding lookup set_frame pin record_access get_available_frame load_page
  fetch_page fuel bp id = elim (lookup id bp.page_table) [
    | some i ↦
        let f = bp.frames i in
        page
          (set_frame (record bp { order = record_access bp.order id }) i
            (record f { pin_count = pin f.pin_count }))
          i
    | none ↦ elim (get_available_frame fuel bp) [
      | frame bp' i ↦ load_page bp' i id
      | write_failed bp' ↦ fetch_failed bp'
      | exhausted bp' ↦ fetch_failed bp'
      | spinning ↦ endless
    ]
  ]

  -- The page behind the last one, written as zeros, fetched and formatted.
  unfoldable pub new_page : ℕ → BufferPool D → Fetched D
  unfolding fetch_page init set_frame
  new_page fuel bp = elim (device.block_count bp.disk) [
    | none ↦ fetch_failed bp
    | some id ↦
        let (disk', written) = device.write_block bp.disk id (λ j. 0) in
        let bp' = record bp { disk = disk' } in
        let fetched = fetch_page fuel bp' id in
        if not written then fetch_failed bp' else elim fetched [
          | page bp'' i ↦
              let f = bp''.frames i in page (set_frame bp'' i (record f { bytes = init f.bytes })) i
          | fetch_failed bp'' ↦ fetch_failed bp''
          | endless ↦ endless
        ]
  ]
