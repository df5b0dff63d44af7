-- ===== src/Compression.antt =====
-- compression.go: the run-length pass of Compress and its inverse in Decompress. A run of four
-- bytes or more becomes the marker 0xFE, its length and its byte.
pub mod Runs
use ultimate_db.Prelude.{
  ℕ, zero, suc, ◌+◌, Bool, true, false, ◌&&◌, Option, none, some, List, [], ◌∷◌, ◌++◌, length, drop,
  replicate, nat_eq, if◌then◌else◌,
}

-- src[sIdx] == src[sIdx+1] && src[sIdx] == src[sIdx+2] && src[sIdx] == src[sIdx+3]
unfoldable pub starts_run : List ℕ → Bool
starts_run (a ∷ b ∷ c ∷ d ∷ rest) = nat_eq a b && nat_eq a c && nat_eq a d
starts_run _ = false

-- The inner loop: the bytes equal to `b` at the front, `limit` at most.
unfoldable pub run_length : ℕ → ℕ → List ℕ → ℕ
run_length b zero src = 0
run_length b (suc limit) [] = 0
run_length b (suc limit) (x ∷ src) =
    let more = run_length b limit src in if nat_eq x b then suc more else 0

-- Every round takes a byte at least, so the length of the source is fuel enough.
unfoldable pub shorten : ℕ → List ℕ → List ℕ
unfolding starts_run run_length
shorten zero src = []
shorten (suc fuel) [] = []
shorten (suc fuel) (x ∷ src) = elim (starts_run (x ∷ src)) [
  | true ↦
      254
      ∷ run_length x 255 (x ∷ src)
      ∷ x
      ∷ shorten fuel (drop (run_length x 255 (x ∷ src)) (x ∷ src))
  | false ↦ x ∷ shorten fuel src
]

abbrev pub shorten_runs : List ℕ → List ℕ
shorten_runs src = shorten (length src) src

abbrev pub prepend : List ℕ → Option (List ℕ) → Option (List ℕ)
prepend bs none = none
prepend bs (some out) = some (bs ++ out)

-- `none` is the panic on a marker at the end.
unfoldable pub expand_runs : List ℕ → Option (List ℕ)
expand_runs [] = some []
expand_runs (x ∷ []) = if nat_eq x 254 then none else some (x ∷ [])
expand_runs (x ∷ n ∷ []) =
    let rest = expand_runs (n ∷ []) in if nat_eq x 254 then none else prepend (x ∷ []) rest
expand_runs (x ∷ n ∷ v ∷ src) = elim (nat_eq x 254) [
  | true ↦ prepend (replicate n v) (expand_runs src)
  | false ↦ prepend (x ∷ []) (expand_runs (n ∷ v ∷ src))
]
