-- ===== src/Tests/Devices.antt =====
-- A device that grows to its second page.
use ultimate_db.Prelude.{ℕ, ◌≡◌, refl, List, [], ◌∷◌, false, replicate}
use ultimate_db.Page.{page_size}
use ultimate_db.Device.{new_mem_device, read_at, write_at}

abbrev filled : List ℕ
filled = replicate page_size 7

-- A write past the end of a small device leaves zeros in between.
gap_test :
    read_at (write_at (write_at new_mem_device (1 ∷ []) 0) (2 ∷ []) 3) 4 0
    ≡ (1 ∷ 0 ∷ 0 ∷ 2 ∷ [], false)
unfolding read_at write_at
gap_test = refl
