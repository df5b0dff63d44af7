-- ===== src/Stores/HotSwap.antt =====
-- hotswap_store.go: reads fall through from the hot store to a legacy slotted page until the page
-- has been migrated. The page is an interface: what DB.Read and DB.Scan find on it at one time.
use ultimate_db.Prelude.{
  ℕ, ◌+◌, ◌≡◌, Bool, true, false, ◌&&◌, ◌||◌, not, Option, none, some, List, [], ◌∷◌, if◌then◌else◌,
  bytes_key, bytes_eq, ℤ, pos, Map, lookup, Unique,
}
use ultimate_db.Bytes.{has_prefix}
use ultimate_db.Stores.{KvStore, GetReply, found, missing, is_nonempty}

-- `scan` lists what a scan of a prefix visits, in its order; the laws are Db.Scan.scan-read.
pub record LegacyPage (L : Type 0) : Type 0 where
  pub read : L → List ℕ → Option (List ℕ)
  pub scan : L → List ℕ → Map (List ℕ) (List ℕ)
  pub expire : L → List ℕ → L
  pub compact : L → L
  pub scan_read :
      (s : L) (prefix key : List ℕ)
      → lookup key (scan s prefix) ≡ (if has_prefix key prefix then read s key else none)
  pub scan_unique : (s : L) (prefix : List ℕ) → Unique (scan s prefix)

-- `legacy` is `none` without a database or with page 0; `legacy_match` may be nil.
pub record HotSwapKvStore (H L : Type 0) : Type 0 where
  pub hot : H
  pub legacy : Option L
  pub marker_key : List ℕ
  pub legacy_match : Option (List ℕ → Bool)

abbrev pub matches : Option (List ℕ → Bool) → List ℕ → Bool
matches none key = true
matches (some f) key = f key

-- The first visit of the scan, which ends there.
abbrev pub first_visit : List ℕ → Map (List ℕ) (List ℕ) → Option (List ℕ)
first_visit key [] = none
first_visit key ((k, v) ∷ rest) = if bytes_eq k key && is_nonempty (some v) then some v else none

-- The entries that the scan of MigrateLegacy keeps.
unfoldable pub pending_of : Option (List ℕ → Bool) → Map (List ℕ) (List ℕ) → Map (List ℕ) (List ℕ)
pending_of f [] = []
pending_of f ((k, v) ∷ rest) =
    let more = pending_of f rest in
    if is_nonempty (some v) && matches f k then (k, v) ∷ more else more

module _ {H L : Type 0} (h : KvStore H) (l : LegacyPage L) where
  unfoldable pub migration_done : HotSwapKvStore H L → Bool
  migration_done s = elim (h.get s.hot s.marker_key) [ none ↦ false | some _ ↦ true ]

  unfoldable pub legacy_get : HotSwapKvStore H L → List ℕ → Option (List ℕ)
  legacy_get s key = elim s.legacy [
    | none ↦ none
    | some page ↦
        if is_nonempty (l.read page key) then l.read page key else first_visit key (l.scan page key)
  ]

  unfoldable pub expire_legacy_key : HotSwapKvStore H L → List ℕ → HotSwapKvStore H L
  expire_legacy_key s key = elim s.legacy [
    | none ↦ s
    | some page ↦ record s { legacy = some (l.expire page key) }
  ]

  -- A failed `Put` is dropped.
  unfoldable pub promote_legacy : HotSwapKvStore H L → List ℕ → List ℕ → HotSwapKvStore H L
  promote_legacy s key val =
      if is_nonempty (some val) then record s { hot = (h.put s.hot key val (pos 0)).0 } else s

  unfoldable pub hot_swap_get : HotSwapKvStore H L → List ℕ → HotSwapKvStore H L × GetReply
  unfolding migration_done legacy_get promote_legacy
  hot_swap_get s key = elim (h.get s.hot key) [
    | some (b ∷ bs) ↦ (s, found (b ∷ bs))
    | _ ↦
        if migration_done s || not (matches s.legacy_match key)
        then (s, missing)
        else elim (legacy_get s key) [
          | none ↦ (s, missing)
          | some val ↦ (promote_legacy s key val, found val)
        ]
  ]

  unfoldable pub hot_swap_put : HotSwapKvStore H L → List ℕ → List ℕ → ℤ → HotSwapKvStore H L × Bool
  hot_swap_put s key val ttl =
      let (hot, ok) = h.put s.hot key val ttl in (record s { hot = hot }, ok)

  unfoldable pub hot_swap_delete : HotSwapKvStore H L → List ℕ → HotSwapKvStore H L × Bool
  unfolding expire_legacy_key
  hot_swap_delete s key =
      let (hot, ok) = h.remove s.hot key in
      let s = record s { hot = hot } in if ok then (expire_legacy_key s key, true) else (s, false)

  -- The loop over them; false is the error of a `Put` or a `Commit`.
  unfoldable pub copy_pending :
      Map (List ℕ) (List ℕ) → HotSwapKvStore H L → ℕ → HotSwapKvStore H L × (ℕ × Bool)
  unfolding expire_legacy_key
  copy_pending [] s copied = (s, (copied, true))
  copy_pending ((k, v) ∷ rest) s copied =
      let put = h.put s.hot k v (pos 0) in
      let kept = copy_pending rest (expire_legacy_key s k) copied in
      let moved = copy_pending rest (expire_legacy_key (record s { hot = put.0 }) k) (copied + 1) in
      if is_nonempty (h.get s.hot k)
      then kept
      else if not put.1
      then (record s { hot = put.0 }, (copied, false))
      else moved

  unfoldable pub compact_legacy : HotSwapKvStore H L → HotSwapKvStore H L
  compact_legacy s = elim s.legacy [
    | none ↦ s
    | some page ↦ record s { legacy = some (l.compact page) }
  ]

  -- The page is compacted and the marker written last.
  unfoldable pub mark_done : HotSwapKvStore H L × (ℕ × Bool) → HotSwapKvStore H L × (ℕ × Bool)
  unfolding compact_legacy
  mark_done (s, (copied, ok)) =
      let s' = compact_legacy s in
      let put = h.put s.hot s.marker_key (b'1' ∷ []) (pos 0) in
      if ok then (record s' { hot = put.0 }, (copied, put.1)) else (s, (copied, false))

  unfoldable pub migrate_legacy : HotSwapKvStore H L → HotSwapKvStore H L × (ℕ × Bool)
  unfolding migration_done pending_of copy_pending mark_done
  migrate_legacy s = if migration_done s then (s, (0, true)) else elim s.legacy [
    | none ↦ (s, (0, true))
    | some page ↦ mark_done (copy_pending (pending_of s.legacy_match (l.scan page [])) s 0)
  ]
