-- ===== src/Tests/Pooling.antt =====
-- Tests of the buffer pool, on a device whose pages are zeros.
use ultimate_db.Prelude.{
  ℕ, suc, ◌≡◌, refl, true, false, some, [], ◌∷◌, arith, nat_eq, nat_eq_iff, lookup, nat_key, pos,
  if◌then◌else◌,
}
use ultimate_db.Memory.{Memory}
use ultimate_db.Pool.{BlockDevice, Frame, BufferPool, endless, fetch_page, is_pinned, dirty_count}
use ultimate_db.Pool.Stuck.{fetch_page_stuck}
use ultimate_db.Pool.Flush.{Apart}
use ultimate_db.Pool.Pinned.{Untouched, fetch_page-Untouched}

abbrev zeros : BlockDevice ℕ
zeros = record {
  read_block = λ d id. (λ i. 0, true);
  write_block = λ d id m. (suc d, true);
  block_count = λ d. some d;
}

abbrev checksum : Memory → ℕ
checksum m = 17

abbrev pinned_frame : ℕ → Frame
pinned_frame id = record { id = id; pin_count = pos 1; is_dirty = false; bytes = λ i. 0 }

-- One frame, with page 7.
abbrev small_pool : BufferPool ℕ
small_pool = record {
  disk = 20;
  pool_size = 1;
  frames = λ i. pinned_frame 7;
  page_table = (7, 0) ∷ [];
  order = 7 ∷ [];
  free_list = [];
}

fetch_page_stuck_example : fetch_page zeros checksum 100 small_pool 8 ≡ endless
unfolding lookup dirty_count is_pinned
fetch_page_stuck_example =
    fetch_page_stuck zeros checksum 100 small_pool 8 refl refl (omega arith) (omega arith)
      ((0, refl, refl), tt)

-- Page 7 is pinned in frame 0, page 9 is in frame 1.
abbrev pool : BufferPool ℕ
pool = record {
  disk = 20;
  pool_size = 2;
  frames =
      λ i. if nat_eq i 0 then pinned_frame 7 else record (pinned_frame 9) { pin_count = pos 0 };
  page_table = (7, 0) ∷ (9, 1) ∷ [];
  order = 9 ∷ 7 ∷ [];
  free_list = [];
}

pool-Apart : Apart pool
unfolding lookup
pool-Apart a b i e e' =
    ground (arith, e, e', nat_eq_iff 7 a, nat_eq_iff 7 b, nat_eq_iff 9 a, nat_eq_iff 9 b)

-- Page 8 gets frame 1.
fetch_page-Untouched_example :
    Untouched zeros checksum 7 0 (pos 1) (fetch_page zeros checksum 5 pool 8)
unfolding lookup is_pinned
fetch_page-Untouched_example =
    fetch_page-Untouched zeros checksum 5 pool 7 0 8 pool-Apart tt refl refl refl
