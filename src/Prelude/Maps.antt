-- ===== src/Prelude/Maps.antt =====
-- Go's maps as association lists with one entry for a key. A `range` over a map visits the entries
-- in the list's order, which is one of those that Go may take. The layout of a page after a
-- compaction depends on it (Db/Compact/Order).
use mathlib.Core.Path.{◌≡◌, refl, ◌∙◌, ap, sym}
use mathlib.Core.Logic.{inl, inr}
use mathlib.Core.Option.{Option, none, some}
use mathlib.Core.List.{List, [], ◌∷◌}
use native.Mathlib.Omega.{arith}
use ultimate_db.Prelude.Tests.{if◌then◌else◌, Bool-cases}
use ultimate_db.Prelude.Equality.{Eq, ◌==◌}

abbrev pub Map {ℓ κ} : Type ℓ → Type κ → Type (ℓ ⊔ κ)
Map K V = List (K × V)

module _ {ℓ κ} {K : Type ℓ} {V : Type κ} ⦃e : Eq K⦄ where
  -- v, ok := m[key]
  unfoldable pub lookup : K → Map K V → Option V
  lookup key [] = none
  lookup key ((k, v) ∷ rest) = if k == key then some v else lookup key rest

  -- m[key] = val
  unfoldable pub insert : K → V → Map K V → Map K V
  insert key val [] = (key, val) ∷ []
  insert key val ((k, v) ∷ rest) =
      if k == key then (key, val) ∷ rest else (k, v) ∷ insert key val rest

  -- delete(m, key)
  unfoldable pub delete : K → Map K V → Map K V
  delete key [] = []
  delete key ((k, v) ∷ rest) =
      let left = delete key rest in if k == key then left else (k, v) ∷ left

  pub lookup-insert :
      (k j : K) (v : V) (m : Map K V)
      → lookup j (insert k v m) ≡ (if k == j then some v else lookup j m)
  unfolding lookup insert
  lookup-insert k j v [] = refl
  lookup-insert k j v ((i, w) ∷ rest) =
      ground (arith, lookup-insert k j v rest, e.same_iff i k, e.same_iff i j, e.same_iff k j)

  pub lookup-delete :
      (k j : K) (m : Map K V) → lookup j (delete k m) ≡ (if k == j then none else lookup j m)
  unfolding lookup delete
  lookup-delete k j [] = ground arith
  lookup-delete k j ((i, w) ∷ rest) =
      ground (arith, lookup-delete k j rest, e.same_iff i k, e.same_iff i j, e.same_iff k j)

  pub lookup-insert_self : (k : K) (v : V) (m : Map K V) → lookup k (insert k v m) ≡ some v
  lookup-insert_self k v m = ground (arith, lookup-insert k k v m, e.same_iff k k)

-- No key has two entries, as in every Go map.
module _ {ℓ κ} {K : Type ℓ} {V : Type κ} ⦃e : Eq K⦄ where
  abbrev pub Unique : Map K V → Type κ
  Unique [] = Unit
  Unique ((k, v) ∷ m) = (lookup k m ≡ none) × Unique m

  pub insert-Unique : (k : K) (v : V) (m : Map K V) → Unique m → Unique (insert k v m)
  unfolding insert
  insert-Unique k v [] u = (unfold lookup in refl, tt)
  insert-Unique k v ((j, w) ∷ m) u = elim (Bool-cases (j == k)) [
    | inl eq ↦ rw (eq, insert) (ground (arith, e.same_iff j k), u.1)
    | inr ne ↦
        rw (ne, insert)
          (
            ground (arith, lookup-insert k j v m, e.same_iff j k, e.same_iff k j),
            insert-Unique k v m u.1,
          )
  ]

-- for k, v := range m { r = step(k, v, r) }
module _ {ℓ κ μ} {K : Type ℓ} {V : Type κ} {R : Type μ} where
  unfoldable pub each_entry : (K → V → R → R) → Map K V → R → R
  each_entry step [] r = r
  each_entry step ((k, v) ∷ m) r = each_entry step m (step k v r)

-- A loop whose round for the key `k` only changes what is looked up at `k`.
module _ {ℓ κ μ ν} {K : Type ℓ} {V : Type κ} {R : Type μ} {W : Type ν} ⦃e : Eq K⦄
    (step : K → V → R → R) (look : K → R → W) (update : K → V → W → W)
    (one : (k : K) (v : V) (r : R) (j : K)
      → look j (step k v r) ≡ (if k == j then update j v (look j r) else look j r)) where
  abbrev changed : K → Option V → W → W
  changed j o w = elim o [ none ↦ w | some v ↦ update j v w ]

  pub look-each_entry :
      (m : Map K V) (r : R) (j : K)
      → Unique m
      → look j (each_entry step m r) ≡ changed j (lookup j m) (look j r)
  unfolding each_entry lookup
  look-each_entry [] r j u = refl
  look-each_entry ((k, v) ∷ m) r j u = elim (Bool-cases (k == j)) [
    | inl eq ↦ rw eq (
        look-each_entry m (step k v r) j u.1
        ∙ ap (λ o. changed j o (look j (step k v r)))
            (ap (λ i. lookup i m) (sym ((e.same_iff k j).0 eq)) ∙ u.0)
        ∙ one k v r j
        ∙ rw eq)
    | inr ne ↦
        rw ne
          (look-each_entry m (step k v r) j u.1 ∙ ap (changed j (lookup j m)) (one k v r j ∙ rw ne))
  ]
