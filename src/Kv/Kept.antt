-- ===== src/Kv/Kept.antt =====
-- The operations of the key-value store keep its tree well-formed.
use mathlib.Core.Path.{subst}
use ultimate_db.Prelude.{
  ℕ, ◌+◌, ◌≤◌, ◌<◌, ◌^◌, ◌≡◌, sym, Option, none, some, List, length, arith, inl, inr, Option-cases,
}
use ultimate_db.Memory.{Memory}
use ultimate_db.BTree.Leaf.Find.{without}
use ultimate_db.BTree.Leaf.Sorted.{lookup_cell, without-Sorted}
use ultimate_db.BTree.Tree.{Tree, find_leaf}
use ultimate_db.BTree.Tree.Formed.{
  max_key, LeafFormed, TreeFormed, set_page-TreeFormed, find_leaf-TreeFormed,
}
use ultimate_db.BTree.Tree.Kept.{without-Short}
use ultimate_db.BTree.Tree.InsertKept.{tree_insert-TreeFormed}
use ultimate_db.Kv.{kv_put, kv_delete, delete_from_leaf, Deleted}
use ultimate_db.Kv.Delete.{reply_of, delete_from_leaf-Holds}
use ultimate_db.Kv.Laws.{kv_delete_found}

-- A call of a client.
pub data Request : Type 0 where
  put_request : List ℕ → List ℕ → Request
  delete_request : List ℕ → Request

abbrev or_same : Tree → Option (Tree × Deleted) → Tree
or_same t none = t
or_same t (some (t', reply)) = t'

abbrev pub request_key : Request → List ℕ
request_key (put_request key val) = key
request_key (delete_request key) = key

unfoldable pub perform : ℕ → Tree → Request → Tree
unfolding kv_put kv_delete
perform fuel t (put_request key val) = (kv_put fuel t key val).0
perform fuel t (delete_request key) = or_same t (kv_delete fuel t key)

delete_from_leaf-LeafFormed :
    (m : Memory) (key : List ℕ)
    → LeafFormed m
    → (m' : Memory) × (r : Deleted) × (delete_from_leaf m key ≡ (m', r)) × LeafFormed m'
delete_from_leaf-LeafFormed m key (cs, h, s, small) =
    let (m', done, h', kept) = delete_from_leaf-Holds m key cs h s in
    (
      m',
      reply_of (lookup_cell key cs),
      done,
      (without key cs, h', without-Sorted key cs s, without-Short key cs small),
    )

kv_delete_lost :
    (fuel : ℕ) (t : Tree) (key : List ℕ)
    → find_leaf fuel t t.root key ≡ none
    → kv_delete fuel t key ≡ none
unfolding kv_delete
kv_delete_lost fuel t key e = ground (arith, e)

kv_delete-TreeFormed :
    (fuel : ℕ) (t : Tree) (key : List ℕ)
    → TreeFormed t
    → TreeFormed (or_same t (kv_delete fuel t key))
kv_delete-TreeFormed fuel t key f = elim (Option-cases (find_leaf fuel t t.root key)) [
  | inl away ↦ subst (λ o. TreeFormed (or_same t o)) (sym (kv_delete_lost fuel t key away)) f
  | inr (id, e) ↦
      let (lt, page) = find_leaf-TreeFormed fuel t t.root id key f f.root_there e in
      let (m, r, done, page') = delete_from_leaf-LeafFormed (t.pages id) key page in
      subst (λ o. TreeFormed (or_same t o)) (sym (kv_delete_found fuel t key id m r e done))
        (set_page-TreeFormed t id m f (inl page'))
]

-- Put and Delete keep a tree well-formed: every page of the device stays a leaf that holds cells
-- with ascending keys or an inner page whose children are pages of the device, whether a leaf has
-- room, is split, its ancestors are split, a new root is made or the call fails. Keys are at most
-- 32000 bytes long, and the ids of the pages stay below 2 ^ 32.
pub perform-TreeFormed :
    (fuel : ℕ) (t : Tree) (r : Request)
    → TreeFormed t
    → length (request_key r) ≤ max_key
    → t.allocated + fuel < 2 ^ 32
    → TreeFormed (perform fuel t r)
unfolding perform kv_put
perform-TreeFormed fuel t (put_request key val) f short le =
    tree_insert-TreeFormed fuel t key val f short le
perform-TreeFormed fuel t (delete_request key) f short le = kv_delete-TreeFormed fuel t key f
