-- ===== src/Compression/Runs.antt =====
-- The run-length pass is undone by its inverse, and never makes a block longer.
use ultimate_db.Prelude.{
  ℕ, zero, suc, ◌≤◌, ◌≡◌, refl, ◌∙◌, ap, true, false, Bool-cases, inl, inr, some, List, [], ◌∷◌,
  ◌++◌, length, drop, replicate, length-drop, nat_eq, nat_eq_iff, arith, All,
}
use ultimate_db.Compression.{starts_run, run_length, shorten, shorten_runs, prepend, expand_runs}

-- The bytes in front, and what follows them.
run-split :
    (b limit : ℕ) (src : List ℕ)
    → replicate (run_length b limit src) b ++ drop (run_length b limit src) src ≡ src
unfolding run_length
run-split b zero src = refl
run-split b (suc limit) [] = refl
run-split b (suc limit) (x ∷ src) = elim (Bool-cases (nat_eq x b)) [
  | inl e ↦ rw e (ground (arith, run-split b limit src, nat_eq_iff x b, e))
  | inr e ↦ rw e
]

run-le : (b limit : ℕ) (src : List ℕ) → run_length b limit src ≤ length src
unfolding run_length
run-le b zero src = omega arith
run-le b (suc limit) [] = omega arith
run-le b (suc limit) (x ∷ src) = ground (arith, run-le b limit src)

-- A run has four bytes.
run-four : (x : ℕ) (src : List ℕ) → starts_run (x ∷ src) ≡ true → 4 ≤ run_length x 255 (x ∷ src)
unfolding run_length starts_run
run-four x [] h = ground arith
run-four x (a ∷ []) h = ground arith
run-four x (a ∷ b ∷ []) h = ground arith
run-four x (a ∷ b ∷ c ∷ src) h = ground (arith, h)

expand-literal :
    (x : ℕ) (src : List ℕ)
    → nat_eq x 254 ≡ false
    → expand_runs (x ∷ src) ≡ prepend (x ∷ []) (expand_runs src)
unfolding expand_runs
expand-literal x [] e = rw e
expand-literal x (n ∷ []) e = rw e
expand-literal x (n ∷ v ∷ src) e = ground (arith, e)

expand-run :
    (n v : ℕ) (src : List ℕ)
    → expand_runs (254 ∷ n ∷ v ∷ src) ≡ prepend (replicate n v) (expand_runs src)
unfolding expand_runs
expand-run n v src = refl

abbrev pub NoMarker : List ℕ → Type 0
NoMarker src = All (λ x. nat_eq x 254 ≡ false) src

drop-NoMarker : (n : ℕ) (src : List ℕ) → NoMarker src → NoMarker (drop n src)
drop-NoMarker zero src h = h
drop-NoMarker (suc n) [] h = tt
drop-NoMarker (suc n) (x ∷ src) h = drop-NoMarker n src h.1

shorten-run :
    (fuel x : ℕ) (src : List ℕ)
    → starts_run (x ∷ src) ≡ true
    → shorten (suc fuel) (x ∷ src)
      ≡ 254
        ∷ run_length x 255 (x ∷ src)
        ∷ x
        ∷ shorten fuel (drop (run_length x 255 (x ∷ src)) (x ∷ src))
unfolding shorten
shorten-run fuel x src e = ground (arith, e)

shorten-literal :
    (fuel x : ℕ) (src : List ℕ)
    → starts_run (x ∷ src) ≡ false
    → shorten (suc fuel) (x ∷ src) ≡ x ∷ shorten fuel src
unfolding shorten
shorten-literal fuel x src e = ground (arith, e)

expand-shorten :
    (fuel : ℕ) (src : List ℕ)
    → length src ≤ fuel
    → NoMarker src
    → (expand_runs (shorten fuel src) ≡ some src) × (length (shorten fuel src) ≤ length src)
expand-shorten zero [] le h = unfold shorten expand_runs in (refl, omega arith)
expand-shorten zero (x ∷ src) le h = ground arith
expand-shorten (suc fuel) [] le h = unfold shorten expand_runs in (refl, omega arith)
expand-shorten (suc fuel) (x ∷ src) le h = elim (Bool-cases (starts_run (x ∷ src))) [
  | inl e ↦
      let n = run_length x 255 (x ∷ src) in
      let four = run-four x src e in
      let (same, size) =
        expand-shorten fuel (drop n (x ∷ src)) (omega (arith, length-drop n (x ∷ src), le, four))
          (drop-NoMarker n (x ∷ src) h) in
      (
        ap expand_runs (shorten-run fuel x src e)
            ∙ expand-run n x (shorten fuel (drop n (x ∷ src)))
            ∙ ap (prepend (replicate n x)) same
            ∙ ap some (run-split x 255 (x ∷ src)),
        omega (
          arith,
          ap length (shorten-run fuel x src e),
          size,
          length-drop n (x ∷ src),
          four,
          run-le x 255 (x ∷ src),
        ),
      )
  | inr e ↦
      let (same, size) = expand-shorten fuel src (omega arith) h.1 in
      (
        ap expand_runs (shorten-literal fuel x src e)
            ∙ expand-literal x (shorten fuel src) h.0
            ∙ ap (prepend (x ∷ [])) same,
        omega (arith, ap length (shorten-literal fuel x src e), size),
      )
]

-- A block without the marker's byte is restored from its run-length form, which is no longer than
-- the block.
pub expand_runs-shorten_runs :
    (src : List ℕ)
    → NoMarker src
    → (expand_runs (shorten_runs src) ≡ some src) × (length (shorten_runs src) ≤ length src)
expand_runs-shorten_runs src h = expand-shorten (length src) src (omega arith) h
