-- ===== src/Prelude/Reordered.antt =====
-- The orders in which Go may range over a map.
use mathlib.Core.Path.{◌≡◌, refl, ◌∙◌, sym, subst}
use mathlib.Core.List.{◌∷◌, Permᴰ}
use native.Mathlib.Omega.{arith}
use ultimate_db.Prelude.Equality.{Eq}
use ultimate_db.Prelude.Maps.{Map, lookup, Unique}

module _ {ℓ κ} {K : Type ℓ} {V : Type κ} ⦃e : Eq K⦄ where
  -- Another order of a map's entries is the same map.
  abbrev Same : Map K V → Map K V → Type (ℓ ⊔ κ)
  Same m m' = Unique m' × ((j : K) → lookup j m ≡ lookup j m')

  cons-Same : (a : K × V) (m m' : Map K V) → Unique (a ∷ m) → Same m m' → Same (a ∷ m) (a ∷ m')
  unfolding lookup
  cons-Same (k, v) m m' u s = ((sym (s.1 k) ∙ u.0, s.0), λ j. ground (arith, s.1 j))

  swap-Same : (a b : K × V) (m : Map K V) → Unique (a ∷ b ∷ m) → Same (a ∷ b ∷ m) (b ∷ a ∷ m)
  unfolding lookup
  swap-Same (k, v) (i, w) m u = (
    (ground (arith, u.0, u.1.0, e.same_iff k i, e.same_iff i k), (ground (arith, u.0), u.1.1)),
    λ j. ground (arith, u.0, e.same_iff k j, e.same_iff i j, e.same_iff i k),
  )

  pub Permᴰ-Same :
      {m m' : Map K V} → Permᴰ m m' → Unique m → Unique m' × ((j : K) → lookup j m ≡ lookup j m')
  Permᴰ-Same Permᴰ.nil u = (u, λ j. refl)
  Permᴰ-Same (Permᴰ.cons {a = a} {l₁ = l₁} {l₂ = l₂} same d) u =
      subst (λ x. Same (a ∷ l₁) (x ∷ l₂)) same (cons-Same a l₁ l₂ u (Permᴰ-Same d u.1))
  Permᴰ-Same (Permᴰ.swap {a = a} {b = b} {a' = a'} {l = l} same same') u =
      subst (λ x. Same (a ∷ b ∷ l) (a' ∷ x ∷ l)) same
        (subst (λ x. Same (a ∷ b ∷ l) (x ∷ a ∷ l)) same' (swap-Same a b l u))
  Permᴰ-Same (Permᴰ.trans d d') u =
      let s = Permᴰ-Same d u in let s' = Permᴰ-Same d' s.0 in (s'.0, λ j. s.1 j ∙ s'.1 j)
