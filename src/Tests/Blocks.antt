-- ===== src/Tests/Blocks.antt =====
-- Compression of a block with one run.
use ultimate_db.Prelude.{ℕ, ◌≡◌, ◌≤◌, refl, some, List, [], ◌∷◌, length}
use ultimate_db.Compression.{shorten, shorten_runs, expand_runs}
use ultimate_db.Compression.Runs.{expand_runs-shorten_runs}

shorten_test : shorten_runs (5 ∷ 9 ∷ 9 ∷ 9 ∷ 9 ∷ 9 ∷ []) ≡ 5 ∷ 254 ∷ 5 ∷ 9 ∷ []
unfolding shorten
shorten_test = refl

-- A marker's byte in the block is taken for a marker.
marker_test : expand_runs (shorten_runs (254 ∷ 2 ∷ 7 ∷ [])) ≡ some (7 ∷ 7 ∷ [])
unfolding shorten expand_runs
marker_test = refl

abbrev block : List ℕ
block = 9 ∷ 9 ∷ 9 ∷ 9 ∷ 1 ∷ []

expand_runs-shorten_runs_example :
    (expand_runs (shorten_runs block) ≡ some block) × (length (shorten_runs block) ≤ length block)
expand_runs-shorten_runs_example =
    expand_runs-shorten_runs block (refl, (refl, (refl, (refl, (refl, tt)))))
