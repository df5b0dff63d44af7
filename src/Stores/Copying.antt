-- ===== src/Stores/Copying.antt =====
-- The loop of MigrateLegacy, and what the legacy page holds.
use mathlib.Core.Path.{subst}
use ultimate_db.Prelude.{
  ℕ, ◌+◌, ◌≡◌, refl, ◌∙◌, ap, sym, inl, inr, Bool, true, false, ◌&&◌, Bool-cases, Option-cases,
  Option, none, some, List, [], ◌∷◌, if◌then◌else◌, bytes_key, bytes_eq, bytes_eq_iff, pos, Map,
  lookup, Unique, arith,
}
use ultimate_db.Stores.{KvStore, is_nonempty}
use ultimate_db.Stores.HotSwap.{
  LegacyPage, HotSwapKvStore, matches, first_visit, legacy_get, expire_legacy_key, pending_of,
  copy_pending,
}

-- The value of a key after the loop: the hot store's, or else the pending one.
abbrev pub merged : Option (List ℕ) → Option (List ℕ) → Option (List ℕ)
merged waiting hot = if is_nonempty hot then hot else elim waiting [ none ↦ hot | some v ↦ some v ]

abbrev pub AllFull : Map (List ℕ) (List ℕ) → Type 0
AllFull [] = Unit
AllFull ((k, v) ∷ rest) = (is_nonempty (some v) ≡ true) × AllFull rest

pub pending_of-AllFull :
    (f : Option (List ℕ → Bool)) (m : Map (List ℕ) (List ℕ)) → AllFull (pending_of f m)
unfolding pending_of
pending_of-AllFull f [] = tt
pending_of-AllFull f ((k, v) ∷ rest) = elim (Bool-cases (is_nonempty (some v) && matches f k)) [
  | inl e ↦ rw e (ground (arith, e), pending_of-AllFull f rest)
  | inr e ↦ rw e (pending_of-AllFull f rest)
]

pub lookup-pending_of :
    (f : Option (List ℕ → Bool)) (m : Map (List ℕ) (List ℕ)) (key : List ℕ)
    → Unique m
    → lookup key (pending_of f m)
      ≡ (if is_nonempty (lookup key m) && matches f key then lookup key m else none)
unfolding pending_of lookup
lookup-pending_of f [] key u = refl
lookup-pending_of f ((k, v) ∷ rest) key u = elim (Bool-cases (bytes_eq k key)) [
  | inl e ↦ ground (
    arith,
    e,
    lookup-pending_of f rest key u.1,
    ap (λ j. lookup j rest) (sym ((bytes_eq_iff k key).0 e)) ∙ u.0,
    ap (matches f) ((bytes_eq_iff k key).0 e),
  )
  | inr e ↦ ground (arith, e, lookup-pending_of f rest key u.1)
]

first_visit-empty :
    (key : List ℕ) (m : Map (List ℕ) (List ℕ))
    → is_nonempty (lookup key m) ≡ false
    → first_visit key m ≡ none
unfolding lookup
first_visit-empty key [] e = refl
first_visit-empty key ((k, v) ∷ rest) e = ground (arith, e)

module _ {H L : Type 0} (h : KvStore H) (l : LegacyPage L) where
  pub legacy_get-read :
      (s : HotSwapKvStore H L) (page : L) (key : List ℕ)
      → s.legacy ≡ some page
      → legacy_get h l s key ≡ (if is_nonempty (l.read page key) then l.read page key else none)
  unfolding legacy_get
  legacy_get-read s page key e =
      ground (arith, e, l.scan_read page key key, first_visit-empty key (l.scan page key))

  expire-same :
      (s : HotSwapKvStore H L) (key : List ℕ)
      → ((expire_legacy_key h l s key).hot ≡ s.hot)
        × ((expire_legacy_key h l s key).marker_key ≡ s.marker_key)
  unfolding expire_legacy_key
  expire-same s key = elim (Option-cases s.legacy) [
    | inl e ↦ (ground (arith, e), ground (arith, e))
    | inr (page, e) ↦ (ground (arith, e), ground (arith, e))
  ]

  module _ (k v : List ℕ) (rest : Map (List ℕ) (List ℕ)) (s : HotSwapKvStore H L) (n : ℕ) where
    abbrev step : HotSwapKvStore H L × (ℕ × Bool)
    step = copy_pending h l ((k, v) ∷ rest) s n

    abbrev put_hot : HotSwapKvStore H L
    put_hot = record s { hot = (h.put s.hot k v (pos 0)).0 }

    step-kept :
        is_nonempty (h.get s.hot k) ≡ true
        → step ≡ copy_pending h l rest (expire_legacy_key h l s k) n
    unfolding copy_pending
    step-kept e = ground (arith, e)

    step-moved :
        is_nonempty (h.get s.hot k) ≡ false
        → (h.put s.hot k v (pos 0)).1 ≡ true
        → step ≡ copy_pending h l rest (expire_legacy_key h l put_hot k) (n + 1)
    unfolding copy_pending
    step-moved e ok = ground (arith, e, ok)

    step-failed :
        is_nonempty (h.get s.hot k) ≡ false → (h.put s.hot k v (pos 0)).1 ≡ false → step.1.1 ≡ false
    unfolding copy_pending
    step-failed e fails = ground (arith, e, fails)

    get-put_hot :
        (j : List ℕ)
        → h.put_fits s.hot k v
        → (h.put s.hot k v (pos 0)).1 ≡ true
        → h.get (expire_legacy_key h l put_hot k).hot j
          ≡ (if bytes_eq k j then some v else h.get s.hot j)
    get-put_hot j fits ok =
        ap (λ t. h.get t j) (expire-same put_hot k).0 ∙ h.get_put s.hot k v j fits ok

  -- The hot store has room for every pair of the list that the loop puts.
  abbrev pub AllFit : Map (List ℕ) (List ℕ) → H → Type 0
  AllFit [] hot = Unit
  AllFit ((k, v) ∷ rest) hot =
      (is_nonempty (h.get hot k) ≡ true → AllFit rest hot)
      × (is_nonempty (h.get hot k) ≡ false
          → h.put_fits hot k v × AllFit rest (h.put hot k v (pos 0)).0)

  pub copy_pending-get :
      (ps : Map (List ℕ) (List ℕ)) (s : HotSwapKvStore H L) (n : ℕ) (j : List ℕ)
      → AllFull ps
      → AllFit ps s.hot
      → (copy_pending h l ps s n).1.1 ≡ true
      → h.get (copy_pending h l ps s n).0.hot j ≡ merged (lookup j ps) (h.get s.hot j)
  unfolding lookup
  copy_pending-get [] s n j full fit ok = unfold copy_pending in ground arith
  copy_pending-get ((k, v) ∷ rest) s n j full fit ok =
      elim (Bool-cases (is_nonempty (h.get s.hot k))) [
        | inl e ↦
            ap (λ t. h.get t.0.hot j) (step-kept k v rest s n e)
            ∙ copy_pending-get rest (expire_legacy_key h l s k) n j full.1
                (subst (AllFit rest) (sym (expire-same s k).0) (fit.0 e))
                (sym (ap (λ t. t.1.1) (step-kept k v rest s n e)) ∙ ok)
            ∙ ground (arith, e, ap (λ t. h.get t j) (expire-same s k).0, bytes_eq_iff k j)
        | inr e ↦ elim (Bool-cases (h.put s.hot k v (pos 0)).1) [
          | inl put ↦
              ap (λ t. h.get t.0.hot j) (step-moved k v rest s n e put)
              ∙ copy_pending-get rest (expire_legacy_key h l (put_hot k v rest s n) k) (n + 1) j
                  full.1
                  (subst (AllFit rest) (sym (expire-same (put_hot k v rest s n) k).0) (fit.1 e).1)
                  (sym (ap (λ t. t.1.1) (step-moved k v rest s n e put)) ∙ ok)
              ∙ ground
                  (arith, e, get-put_hot k v rest s n j (fit.1 e).0 put, full.0, bytes_eq_iff k j)
          | inr fails ↦ ground (arith, ok, step-failed k v rest s n e fails)
        ]
      ]

  -- The loop keeps the marker's key.
  pub copy_pending-marker :
      (ps : Map (List ℕ) (List ℕ)) (s : HotSwapKvStore H L) (n : ℕ)
      → (copy_pending h l ps s n).1.1 ≡ true
      → (copy_pending h l ps s n).0.marker_key ≡ s.marker_key
  copy_pending-marker [] s n ok = unfold copy_pending in refl
  copy_pending-marker ((k, v) ∷ rest) s n ok = elim (Bool-cases (is_nonempty (h.get s.hot k))) [
    | inl e ↦
        ap (λ t. t.0.marker_key) (step-kept k v rest s n e)
        ∙ copy_pending-marker rest (expire_legacy_key h l s k) n
            (sym (ap (λ t. t.1.1) (step-kept k v rest s n e)) ∙ ok)
        ∙ (expire-same s k).1
    | inr e ↦ elim (Bool-cases (h.put s.hot k v (pos 0)).1) [
      | inl put ↦
          ap (λ t. t.0.marker_key) (step-moved k v rest s n e put)
          ∙ copy_pending-marker rest (expire_legacy_key h l (put_hot k v rest s n) k) (n + 1)
              (sym (ap (λ t. t.1.1) (step-moved k v rest s n e put)) ∙ ok)
          ∙ (expire-same (put_hot k v rest s n) k).1
      | inr fails ↦ ground (arith, ok, step-failed k v rest s n e fails)
    ]
  ]
