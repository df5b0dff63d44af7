-- ===== src/Stores/OnBTree.antt =====
-- BTreeKVStore of kv_store.go as the store of the interface.
use ultimate_db.Prelude.{
  ℕ, ◌+◌, ◌<◌, ◌≡◌, refl, ◌∙◌, ap, Bool, true, false, Option, none, some, List, if◌then◌else◌,
  bytes_eq, ℤ, pos, inl, inr, Bool-cases,
}
use ultimate_db.Page.{page_size}
use ultimate_db.BTree.{Cell}
use ultimate_db.BTree.Leaf.{required}
use ultimate_db.BTree.Leaf.Cells.{total, Holds}
use ultimate_db.BTree.Leaf.Sorted.{Sorted}
use ultimate_db.BTree.Tree.{Tree, Reply, ok, page_full, panicked, lost, find_leaf}
use ultimate_db.Kv.{kv_get, kv_put, kv_delete, Deleted, deleted, not_found, compaction_failed}
use ultimate_db.Kv.Laws.{get-put, get-delete}
use ultimate_db.Stores.{KvStore}

-- The leaf of the key has room for the pair.
pub record PutFits (fuel : ℕ) (t : Tree) (key val : List ℕ) : Type 0 where
  pub leaf : ℕ
  pub cells : List Cell
  pub reached : find_leaf fuel t t.root key ≡ some leaf
  pub held : Holds (t.pages leaf) cells
  pub room : 24 + total cells + required key val < page_size

-- The keys of its leaf ascend.
pub record RemoveFits (fuel : ℕ) (t : Tree) (key : List ℕ) : Type 0 where
  pub leaf : ℕ
  pub cells : List Cell
  pub reached : find_leaf fuel t t.root key ≡ some leaf
  pub held : Holds (t.pages leaf) cells
  pub sorted : Sorted cells

abbrev is_ok : Reply → Bool
is_ok ok = true
is_ok page_full = false
is_ok panicked = false
is_ok lost = false

abbrev is_deleted : Deleted → Bool
is_deleted deleted = true
is_deleted not_found = false
is_deleted compaction_failed = false

-- A walk longer than the fuel is an error, as "key not found" is.
abbrev flat : Option (Option (List ℕ)) → Option (List ℕ)
flat none = none
flat (some o) = o

abbrev store_get : ℕ → Tree → List ℕ → Option (List ℕ)
store_get fuel t key = flat (kv_get fuel t key)

abbrev store_put : ℕ → Tree → List ℕ → List ℕ → ℤ → Tree × Bool
store_put fuel t key val ttl = let (t', reply) = kv_put fuel t key val in (t', is_ok reply)

abbrev removed : Tree → Option (Tree × Deleted) → Tree × Bool
removed t none = (t, false)
removed t (some (t', reply)) = (t', is_deleted reply)

abbrev store_remove : ℕ → Tree → List ℕ → Tree × Bool
store_remove fuel t key = removed t (kv_delete fuel t key)

pub store_get-put :
    (fuel : ℕ) (t : Tree) (key val j : List ℕ) (ttl : ℤ)
    → PutFits fuel t key val
    → store_get fuel (store_put fuel t key val ttl).0 j
      ≡ (if bytes_eq key j then some val else store_get fuel t j)
store_get-put fuel t key val j ttl fits =
    ap flat ((get-put fuel t key val fits.leaf fits.cells fits.reached fits.held fits.room).1 j)
    ∙ elim (Bool-cases (bytes_eq key j)) [ inl e ↦ rw e refl | inr e ↦ rw e refl ]

pub store_get-remove :
    (fuel : ℕ) (t : Tree) (key j : List ℕ)
    → RemoveFits fuel t key
    → store_get fuel (store_remove fuel t key).0 j
      ≡ (if bytes_eq key j then none else store_get fuel t j)
store_get-remove fuel t key j fits =
    let (t', gone, law) =
      get-delete fuel t key fits.leaf fits.cells fits.reached fits.held fits.sorted in
    ap (λ o. store_get fuel (removed t o).0 j) gone
    ∙ ap flat (law j)
    ∙ elim (Bool-cases (bytes_eq key j)) [ inl e ↦ rw e refl | inr e ↦ rw e refl ]

-- Get, Put and Delete over the pages of the tree.
abbrev pub btree_store : ℕ → KvStore Tree
btree_store fuel = record {
  get = store_get fuel;
  put = store_put fuel;
  remove = store_remove fuel;
  put_fits = PutFits fuel;
  remove_fits = RemoveFits fuel;
  get_put = λ s key val j fits ok. store_get-put fuel s key val j (pos 0) fits;
  get_remove = λ s key j fits ok. store_get-remove fuel s key j fits;
}
