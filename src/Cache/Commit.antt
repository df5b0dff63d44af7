-- ===== src/Cache/Commit.antt =====
-- What a commit leaves in the chains, and what it does to the other transactions.
use ultimate_db.Prelude.{
  ℕ, ◌<◌, ◌≡◌, ◌≢◌, refl, ◌∙◌, ap, true, false, not, ◌&&◌, ◌||◌, Option, none, some, List, [], ◌∷◌,
  ◌++◌, ltb, leb, nat_eq, nat_eq_iff, if◌then◌else◌, Map, lookup, ◌==◌, delete, lookup-insert,
  lookup-delete, look-each_entry, Unique, nat_key, bytes_key, bytes_eq_iff, ℤ, arith,
}
use ultimate_db.Cache.{
  MvccRecord, MvccCacheStore, value, refused, write_conflict, chain_of, reveal, scan_versions,
  or_no_version, read_chain, cache_read, read_ts_of, conflicts, WriteSet, validate, version_of,
  append_version, commit_versions, validate_and_commit,
}

pub Chains : Type 0
Chains = Map (List ℕ) (List MvccRecord)

-- The chain of a key after a transaction has written to it.
abbrev pub grown : ℕ → ℕ → ℤ → Option (Option (List ℕ)) → List MvccRecord → List MvccRecord
grown now txn ttl o vs = elim o [ none ↦ vs | some val ↦ vs ++ version_of now txn ttl val ∷ [] ]

module _ (now txn : ℕ) (ttl : ℤ) where
  abbrev look : List ℕ → Map (List ℕ) (List MvccRecord) → List MvccRecord
  look key recs = chain_of (lookup key recs)

  look-append_version :
      (key : List ℕ) (val : Option (List ℕ)) (recs : Map (List ℕ) (List MvccRecord)) (j : List ℕ)
      → look j (append_version now txn ttl key val recs)
        ≡ (if key == j then look j recs ++ version_of now txn ttl val ∷ [] else look j recs)
  unfolding append_version
  look-append_version key val recs j = ground (
    arith,
    lookup-insert key j (look key recs ++ version_of now txn ttl val ∷ []) recs,
    bytes_eq_iff key j,
  )

  -- The commit appends one version to the chain of each key of the write set.
  pub chain-commit_versions :
      (writes : WriteSet) (recs : Map (List ℕ) (List MvccRecord)) (key : List ℕ)
      → Unique writes
      → look key (commit_versions now txn ttl writes recs)
        ≡ grown now txn ttl (lookup key writes) (look key recs)
  unfolding commit_versions
  chain-commit_versions writes recs key u =
      look-each_entry (append_version now txn ttl) look
        (λ k val vs. vs ++ version_of now txn ttl val ∷ []) look-append_version writes recs key u

conflicts-append :
    (txn read_ts : ℕ) (vs : List MvccRecord) (v : MvccRecord)
    → conflicts txn read_ts (vs ++ v ∷ []) ≡ (ltb read_ts v.version && not (nat_eq v.txn_id txn))
unfolding conflicts
conflicts-append txn read_ts [] v = refl
conflicts-append txn read_ts (a ∷ []) v = refl
conflicts-append txn read_ts (a ∷ b ∷ vs) v = conflicts-append txn read_ts (b ∷ vs) v

scan_versions-append :
    (now txn read_ts : ℕ) (vs : List MvccRecord) (v : MvccRecord)
    → scan_versions now txn read_ts (vs ++ v ∷ []) ≡ (
        if leb v.txn_id txn || leb v.version read_ts
        then some (reveal now v)
        else scan_versions now txn read_ts vs)
unfolding scan_versions
scan_versions-append now txn read_ts [] v = refl
scan_versions-append now txn read_ts (a ∷ vs) v =
    ground (arith, scan_versions-append now txn read_ts vs v)

-- A conflict on one key of the write set is found.
validate-conflict :
    (c : MvccCacheStore) (txn : ℕ) (writes : WriteSet) (key : List ℕ) (val : Option (List ℕ))
    → lookup key writes ≡ some val
    → conflicts txn (read_ts_of c txn) (chain_of (lookup key c.recs)) ≡ true
    → validate c txn writes ≡ false
unfolding lookup validate
validate-conflict c txn [] key val e h = ground arith
validate-conflict c txn ((k, v) ∷ writes) key val e h =
    ground (arith, validate-conflict c txn writes key val, e, h, bytes_eq_iff k key)

committed :
    (now txn : ℕ) (ttl : ℤ) (c : MvccCacheStore) (writes : WriteSet)
    → (validate_and_commit now c txn writes ttl).1 ≡ value tt
    → (validate_and_commit now c txn writes ttl).0 ≡ record c {
      recs = commit_versions now txn ttl writes c.recs;
      active_tx = delete txn c.active_tx;
    }
unfolding validate_and_commit
committed now txn ttl c writes h = ground (arith, h)

cache_read-chain :
    (now txn read_ts : ℕ) (c : MvccCacheStore) (key : List ℕ)
    → lookup txn c.active_tx ≡ some read_ts
    → cache_read now c txn key ≡ read_chain now txn read_ts (chain_of (lookup key c.recs))
unfolding cache_read
cache_read-chain now txn read_ts c key e = ground (arith, e)

read_chain-append :
    (now txn read_ts : ℕ) (vs : List MvccRecord) (v : MvccRecord)
    → read_chain now txn read_ts (vs ++ v ∷ []) ≡ (
        if leb v.txn_id txn || leb v.version read_ts
        then reveal now v
        else or_no_version (scan_versions now txn read_ts vs))
read_chain-append now txn read_ts [] v = ground (arith, scan_versions-append now txn read_ts [] v)
read_chain-append now txn read_ts (a ∷ vs) v =
    ground (arith, scan_versions-append now txn read_ts (a ∷ vs) v)

refuse :
    (now txn : ℕ) (ttl : ℤ) (c : MvccCacheStore) (writes : WriteSet)
    → validate c txn writes ≡ false
    → (validate_and_commit now c txn writes ttl).1 ≡ refused write_conflict
unfolding validate_and_commit
refuse now txn ttl c writes e = ground (arith, e)

read_ts-lookup :
    (c : MvccCacheStore) (txn read_ts : ℕ)
    → lookup txn c.active_tx ≡ some read_ts
    → read_ts_of c txn ≡ read_ts
read_ts-lookup c txn read_ts e = ground (arith, e)

module _ (now txn : ℕ) (ttl : ℤ) (c : MvccCacheStore) (writes : WriteSet) (u : Unique writes)
    (commits : (validate_and_commit now c txn writes ttl).1 ≡ value tt) where
  abbrev after : MvccCacheStore
  after = (validate_and_commit now c txn writes ttl).0

  pub chain-commit :
      (key : List ℕ)
      → chain_of (lookup key after.recs)
        ≡ grown now txn ttl (lookup key writes) (chain_of (lookup key c.recs))
  chain-commit key =
      ap (λ s. chain_of (lookup key s.recs)) (committed now txn ttl c writes commits)
      ∙ chain-commit_versions now txn ttl writes c.recs key u

  active-commit :
      (other read_ts : ℕ)
      → other ≢ txn
      → lookup other c.active_tx ≡ some read_ts
      → lookup other after.active_tx ≡ some read_ts
  active-commit other read_ts ne act =
      ap (λ s. lookup other s.active_tx) (committed now txn ttl c writes commits)
      ∙ lookup-delete txn other c.active_tx
      ∙ ground (arith, act, ne, nat_eq_iff txn other)

  module _ (later other read_ts : ℕ) (key : List ℕ) (val : Option (List ℕ))
      (written : lookup key writes ≡ some val) (ne : other ≢ txn)
      (act : lookup other c.active_tx ≡ some read_ts) where
    chain-written :
        chain_of (lookup key after.recs)
        ≡ chain_of (lookup key c.recs) ++ version_of now txn ttl val ∷ []
    chain-written = chain-commit key ∙ rw written

    -- What another active transaction reads of a key after a commit that wrote it: the new
    -- version, if the writer's number is not above the reader's or the reader began no earlier
    -- than the commit, and else what the older versions show it.
    pub cache_read-commit : cache_read later after other key ≡ (
        if leb txn other || leb now read_ts
        then reveal later (version_of now txn ttl val)
        else or_no_version (scan_versions later other read_ts (chain_of (lookup key c.recs))))
    unfolding version_of
    cache_read-commit =
        cache_read-chain later other read_ts after key (active-commit other read_ts ne act)
        ∙ ap (read_chain later other read_ts) chain-written
        ∙ read_chain-append later other read_ts (chain_of (lookup key c.recs))
            (version_of now txn ttl val)

    -- The first committer wins: another transaction that began before a commit and writes a key
    -- that it wrote is refused when it commits next.
    pub first_committer_wins :
        (writes' : WriteSet) (val' : Option (List ℕ)) (ttl' : ℤ)
        → lookup key writes' ≡ some val'
        → read_ts < now
        → (validate_and_commit later after other writes' ttl').1 ≡ refused write_conflict
    unfolding version_of
    first_committer_wins writes' val' ttl' e lt = refuse later other ttl' after writes' (
        validate-conflict after other writes' key val' e (
          ap (λ t. conflicts other t (chain_of (lookup key after.recs)))
            (read_ts-lookup after other read_ts (active-commit other read_ts ne act))
          ∙ ap (conflicts other read_ts) chain-written
          ∙ conflicts-append other read_ts (chain_of (lookup key c.recs))
              (version_of now txn ttl val)
          ∙ ground (arith, lt, ne, nat_eq_iff txn other)))
