-- ===== src/Stores/Migration.antt =====
-- Migration does not change what a client reads.
use mathlib.Core.Path.{subst}
use ultimate_db.Prelude.{
  ℕ, ◌≡◌, ◌≢◌, refl, ◌∙◌, ap, sym, inl, inr, Bool, true, false, ◌&&◌, Bool-cases, Option-cases,
  Option, none, some, List, [], ◌∷◌, if◌then◌else◌, bytes_key, bytes_eq_refl, bytes_eq_iff, pos,
  arith, ◌⊎◌,
}
use ultimate_db.Bytes.{has_prefix}
use ultimate_db.Stores.{KvStore, GetReply, found, missing, is_nonempty}
use ultimate_db.Stores.HotSwap.{
  LegacyPage, HotSwapKvStore, matches, migration_done, hot_swap_get, pending_of, copy_pending,
  compact_legacy, mark_done, migrate_legacy,
}
use ultimate_db.Stores.Copying.{
  merged, AllFit, pending_of-AllFull, lookup-pending_of, legacy_get-read, copy_pending-get,
  copy_pending-marker,
}

module _ {H L : Type 0} (h : KvStore H) (l : LegacyPage L) where
  -- What a client reads, before and after the migration.
  abbrev open_reply : HotSwapKvStore H L → L → List ℕ → Option (List ℕ)
  open_reply s page key =
      merged
        (if is_nonempty (l.read page key) && matches s.legacy_match key
          then l.read page key
          else none)
        (h.get s.hot key)

  -- The hot store has room for the pairs that the migration copies and for the marker.
  abbrev pub Fits : HotSwapKvStore H L → L → Type 0
  Fits s page =
      AllFit h l (pending_of s.legacy_match (l.scan page [])) s.hot
      × h.put_fits (copy_pending h l (pending_of s.legacy_match (l.scan page [])) s 0).0.hot
          s.marker_key (b'1' ∷ [])

  abbrev reply : Option (List ℕ) → GetReply
  reply none = missing
  reply (some []) = missing
  reply (some (b ∷ bs)) = found (b ∷ bs)

  -- The cases of a stored value.
  value-cases :
      (o : Option (List ℕ))
      → (o ≡ none) ⊎ ((o ≡ some []) ⊎ ((b : ℕ) × (bs : List ℕ) × (o ≡ some (b ∷ bs))))
  value-cases none = inl refl
  value-cases (some []) = inr (inl refl)
  value-cases (some (b ∷ bs)) = inr (inr (b, bs, refl))

  get_before :
      (s : HotSwapKvStore H L) (page : L) (key : List ℕ)
      → s.legacy ≡ some page
      → migration_done h l s ≡ false
      → (hot_swap_get h l s key).1 ≡ reply (open_reply s page key)
  unfolding hot_swap_get
  get_before s page key e going = elim (value-cases (h.get s.hot key)) [
    | inl v ↦ elim (value-cases (l.read page key)) [
      | inl w ↦ ground (arith, v, w, going, legacy_get-read h l s page key e)
      | inr (inl w) ↦ ground (arith, v, w, going, legacy_get-read h l s page key e)
      | inr (inr (b, bs, w)) ↦ ground (arith, v, w, going, legacy_get-read h l s page key e)
    ]
    | inr (inl v) ↦ elim (value-cases (l.read page key)) [
      | inl w ↦ ground (arith, v, w, going, legacy_get-read h l s page key e)
      | inr (inl w) ↦ ground (arith, v, w, going, legacy_get-read h l s page key e)
      | inr (inr (b, bs, w)) ↦ ground (arith, v, w, going, legacy_get-read h l s page key e)
    ]
    | inr (inr (b, bs, v)) ↦ ground (arith, v)
  ]

  get_after :
      (s : HotSwapKvStore H L) (key : List ℕ)
      → migration_done h l s ≡ true
      → (hot_swap_get h l s key).1 ≡ reply (h.get s.hot key)
  unfolding hot_swap_get
  get_after s key closed = elim (value-cases (h.get s.hot key)) [
    | inl v ↦ ground (arith, v, closed)
    | inr (inl v) ↦ ground (arith, v, closed)
    | inr (inr (b, bs, v)) ↦ ground (arith, v)
  ]

  compact-same :
      (s : HotSwapKvStore H L)
      → ((compact_legacy h l s).hot ≡ s.hot) × ((compact_legacy h l s).marker_key ≡ s.marker_key)
  unfolding compact_legacy
  compact-same s = elim (Option-cases s.legacy) [
    | inl e ↦ (ground (arith, e), ground (arith, e))
    | inr (page, e) ↦ (ground (arith, e), ground (arith, e))
  ]

  abbrev mark : HotSwapKvStore H L → H × Bool
  mark s = h.put s.hot s.marker_key (b'1' ∷ []) (pos 0)

  -- A loop and a marker that went well.
  marked :
      (o : HotSwapKvStore H L × (ℕ × Bool))
      → (mark_done h l o).1.1 ≡ true
      → (o.1.1 ≡ true)
        × ((mark o.0).1 ≡ true)
        × ((mark_done h l o).0.hot ≡ (mark o.0).0)
        × ((mark_done h l o).0.marker_key ≡ o.0.marker_key)
  unfolding mark_done
  marked (s, (copied, true)) ok = (refl, ok, refl, (compact-same s).1)
  marked (s, (copied, false)) ok = ground (arith, ok)

  migration_done-has :
      (s : HotSwapKvStore H L) (v : List ℕ)
      → h.get s.hot s.marker_key ≡ some v
      → migration_done h l s ≡ true
  unfolding migration_done
  migration_done-has s v e = ground (arith, e)

  module _ (s : HotSwapKvStore H L) (key : List ℕ) (ne : key ≢ s.marker_key) where
    abbrev copied_from : L → HotSwapKvStore H L × (ℕ × Bool)
    copied_from page = copy_pending h l (pending_of s.legacy_match (l.scan page [])) s 0

    no_prefix : has_prefix key [] ≡ true
    unfolding has_prefix
    no_prefix = refl

    hot-copied :
        (page : L)
        → Fits s page
        → (copied_from page).1.1 ≡ true
        → h.get (copied_from page).0.hot key ≡ open_reply s page key
    hot-copied page fits ok =
        copy_pending-get h l (pending_of s.legacy_match (l.scan page [])) s 0 key
          (pending_of-AllFull s.legacy_match (l.scan page [])) fits.0 ok
        ∙ ap (λ o. merged o (h.get s.hot key))
            (lookup-pending_of s.legacy_match (l.scan page []) key (l.scan_unique page [])
              ∙ ap (λ o. if is_nonempty o && matches s.legacy_match key then o else none)
                  (l.scan_read page [] key ∙ rw no_prefix))

    marker_fits :
        (page : L)
        → Fits s page
        → (copied_from page).1.1 ≡ true
        → h.put_fits (copied_from page).0.hot (copied_from page).0.marker_key (b'1' ∷ [])
    marker_fits page fits ok =
        subst (λ k. h.put_fits (copied_from page).0.hot k (b'1' ∷ []))
          (sym (copy_pending-marker h l (pending_of s.legacy_match (l.scan page [])) s 0 ok)) fits.1

    hot-marked :
        (page : L)
        → Fits s page
        → (copied_from page).1.1 ≡ true
        → (mark (copied_from page).0).1 ≡ true
        → h.get (mark (copied_from page).0).0 key ≡ h.get (copied_from page).0.hot key
    hot-marked page fits ok mark_ok =
        h.get_put (copied_from page).0.hot (copied_from page).0.marker_key (b'1' ∷ []) key
          (marker_fits page fits ok) mark_ok
        ∙ ground (
          arith,
          ne,
          copy_pending-marker h l (pending_of s.legacy_match (l.scan page [])) s 0 ok,
          bytes_eq_iff (copied_from page).0.marker_key key,
        )

    done-marked :
        (page : L)
        → Fits s page
        → (mark_done h l (copied_from page)).1.1 ≡ true
        → migration_done h l (mark_done h l (copied_from page)).0 ≡ true
    done-marked page fits ok =
        let (copy_ok, mark_ok, hot, marker) = marked (copied_from page) ok in
        migration_done-has (mark_done h l (copied_from page)).0 (b'1' ∷ []) (
          ap (λ t. h.get t (mark_done h l (copied_from page)).0.marker_key) hot
          ∙ ap (h.get (mark (copied_from page).0).0) marker
          ∙ h.get_put (copied_from page).0.hot (copied_from page).0.marker_key (b'1' ∷ [])
              (copied_from page).0.marker_key (marker_fits page fits copy_ok) mark_ok
          ∙ ground (arith, bytes_eq_refl (copied_from page).0.marker_key))

    get_moved :
        (page : L)
        → s.legacy ≡ some page
        → migration_done h l s ≡ false
        → Fits s page
        → (mark_done h l (copied_from page)).1.1 ≡ true
        → (hot_swap_get h l (mark_done h l (copied_from page)).0 key).1 ≡ (hot_swap_get h l s key).1
    get_moved page e going fits ok =
        let (copy_ok, mark_ok, hot, _) = marked (copied_from page) ok in
        get_after (mark_done h l (copied_from page)).0 key (done-marked page fits ok)
        ∙ ap reply (
            ap (λ t. h.get t key) hot
            ∙ hot-marked page fits copy_ok mark_ok
            ∙ hot-copied page fits copy_ok)
        ∙ sym (get_before s page key e going)

    migrate_done : migration_done h l s ≡ true → migrate_legacy h l s ≡ (s, (0, true))
    unfolding migrate_legacy
    migrate_done d = ground (arith, d)

    migrate_nothing :
        migration_done h l s ≡ false → s.legacy ≡ none → migrate_legacy h l s ≡ (s, (0, true))
    unfolding migrate_legacy
    migrate_nothing d e = ground (arith, d, e)

    migrate_page :
        (page : L)
        → migration_done h l s ≡ false
        → s.legacy ≡ some page
        → migrate_legacy h l s ≡ mark_done h l (copied_from page)
    unfolding migrate_legacy
    migrate_page page d e = ground (arith, d, e)

    -- A migration that succeeds, with room in the hot store for what it puts there, changes the
    -- reply to Get of no key but the marker's.
    pub hot_swap_get-migrate_legacy :
        ((page : L) → s.legacy ≡ some page → Fits s page)
        → (migrate_legacy h l s).1.1 ≡ true
        → (hot_swap_get h l (migrate_legacy h l s).0 key).1 ≡ (hot_swap_get h l s key).1
    hot_swap_get-migrate_legacy fits ok = elim (Bool-cases (migration_done h l s)) [
      | inl d ↦ ap (λ o. (hot_swap_get h l o.0 key).1) (migrate_done d)
      | inr d ↦ elim (Option-cases s.legacy) [
        | inl e ↦ ap (λ o. (hot_swap_get h l o.0 key).1) (migrate_nothing d e)
        | inr (page, e) ↦
            ap (λ o. (hot_swap_get h l o.0 key).1) (migrate_page page d e)
            ∙ get_moved page e d (fits page e) (sym (ap (λ o. o.1.1) (migrate_page page d e)) ∙ ok)
      ]
    ]
