-- ===== src/Tests/Caching.antt =====
-- The cache: two transactions that write the same key.
use ultimate_db.Prelude.{
  ◌≡◌, refl, [], ◌∷◌, some, ◌||◌, leb, if◌then◌else◌, lookup, insert, pos, arith, Unique, nat_key,
  bytes_key, bytes_eq,
}
use ultimate_db.Cache.{
  validate, conflicts, MvccCacheStore, new_cache_store, value, refused, write_conflict, begin_occ,
  cache_read, validate_and_commit, WriteSet, reveal, version_of, or_no_version, scan_versions,
  chain_of,
}
use ultimate_db.Cache.Commit.{cache_read-commit, first_committer_wins}

-- Transactions 1 and 2 begin at times 10 and 20.
abbrev store : MvccCacheStore
store = record { recs = []; txn_id_gen = 2; active_tx = (1, 10) ∷ (2, 20) ∷ [] }

abbrev writes : WriteSet
writes = (97 ∷ [], some (120 ∷ [])) ∷ []

begin_test : (begin_occ 20 (begin_occ 10 new_cache_store).0).0 ≡ store
unfolding begin_occ insert
begin_test = refl

writes-Unique : Unique writes
unfolding lookup
writes-Unique = (refl, tt)

-- Transaction 1 commits at time 30.
commits : (validate_and_commit 30 store 1 writes (pos 0)).1 ≡ value tt
unfolding validate_and_commit validate conflicts lookup
commits = refl

written : lookup (97 ∷ []) writes ≡ some (some (120 ∷ []))
unfolding lookup bytes_eq
written = refl

two_active : lookup 2 store.active_tx ≡ some 20
unfolding lookup
two_active = refl

-- Transaction 2 began at time 20 and reads, at time 40, what was committed at time 30.
cache_read-commit_example :
    cache_read 40 (validate_and_commit 30 store 1 writes (pos 0)).0 2 (97 ∷ []) ≡ (
      if leb 1 2 || leb 30 20
      then reveal 40 (version_of 30 1 (pos 0) (some (120 ∷ [])))
      else or_no_version (scan_versions 40 2 20 (chain_of (lookup (97 ∷ []) store.recs))))
cache_read-commit_example =
    cache_read-commit 30 1 (pos 0) store writes writes-Unique commits 40 2 20 (97 ∷ [])
      (some (120 ∷ [])) written (λ e. omega arith) two_active

first_committer_wins_example :
    (validate_and_commit 40 (validate_and_commit 30 store 1 writes (pos 0)).0 2 writes (pos 0)).1
    ≡ refused write_conflict
first_committer_wins_example =
    first_committer_wins 30 1 (pos 0) store writes writes-Unique commits 40 2 20 (97 ∷ [])
      (some (120 ∷ [])) written (λ e. omega arith) two_active writes (some (120 ∷ [])) (pos 0)
      written (omega arith)
