-- ===== src/Tests/Storing.antt =====
-- Stores that are maps, and a legacy page with one record.
use mathlib.Core.Path.{subst}
use ultimate_db.Prelude.{
  ℕ, ◌≡◌, refl, ◌∙◌, sym, ap, true, none, some, List, [], ◌∷◌, if◌then◌else◌, bytes_key, bytes_eq,
  bytes_eq_iff, pos, Map, lookup, insert, delete, lookup-insert, lookup-delete, Unique, arith, inl,
  inr, Bool-cases,
}
use ultimate_db.Bytes.{has_prefix}
use ultimate_db.Stores.{KvStore, found, missing}
use ultimate_db.Stores.Replica.{
  ReplicatingKvStore, is_durable_identity_key, replica_get, replica_put, replica_delete,
}
use ultimate_db.Stores.Durability.{primary_lost, both_lost, deleted_everywhere}
use ultimate_db.Stores.HotSwap.{
  LegacyPage, HotSwapKvStore, migration_done, expire_legacy_key, pending_of, copy_pending,
  mark_done, hot_swap_get, migrate_legacy,
}
use ultimate_db.Stores.Copying.{AllFit}
use ultimate_db.Stores.Migration.{Fits, hot_swap_get-migrate_legacy}
use ultimate_db.Stores.OnBTree.{PutFits, btree_store}
use ultimate_db.Memory.{Memory}
use ultimate_db.BTree.{Cell}
use ultimate_db.BTree.Leaf.Cells.{Holds}
use ultimate_db.BTree.Leaf.Find.{without}
use ultimate_db.BTree.Leaf.Place.{insert_cell}
use ultimate_db.BTree.Leaf.Sorted.{lookup_cell}
use ultimate_db.BTree.Tree.{Tree, ok, set_page, find_leaf}
use ultimate_db.BTree.Tree.Routing.{find_leaf_leaf, set_page_same, find_leaf-set_page_root}
use ultimate_db.Kv.{kv_get, kv_put, reset_btree_page}
use ultimate_db.Kv.Laws.{kv_get-Holds, put-leaf}
use ultimate_db.Kv.Reset.{reset_btree_page-Holds}

abbrev Store : Type 0
Store = Map (List ℕ) (List ℕ)

abbrev map_store : KvStore Store
map_store = record {
  get = λ s key. lookup key s;
  put = λ s key val ttl. (insert key val s, true);
  remove = λ s key. (delete key s, true);
  put_fits = λ s key val. Unit;
  remove_fits = λ s key. Unit;
  get_put = λ s key val j fits ok. lookup-insert key j val s;
  get_remove = λ s key j fits ok. lookup-delete key j s;
}

abbrev Entry : Type 0
Entry = List ℕ × List ℕ

abbrev visit : Entry → List ℕ → Store
visit s prefix = if has_prefix s.0 prefix then s ∷ [] else []

visit-lookup :
    (s : Entry) (prefix key : List ℕ)
    → lookup key (visit s prefix)
      ≡ (if has_prefix key prefix then (if bytes_eq s.0 key then some s.1 else none) else none)
unfolding lookup
visit-lookup (k, v) prefix key = elim (Bool-cases (bytes_eq k key)) [
  | inl e ↦ ground (arith, e, ap (λ j. has_prefix j prefix) ((bytes_eq_iff k key).0 e))
  | inr e ↦ ground (arith, e)
]

visit-Unique : (s : Entry) (prefix : List ℕ) → Unique (visit s prefix)
unfolding lookup
visit-Unique s prefix = elim (Bool-cases (has_prefix s.0 prefix)) [
  | inl e ↦ rw e (refl, tt)
  | inr e ↦ rw e tt
]

abbrev one_record : LegacyPage Entry
one_record = record {
  read = λ s key. if bytes_eq s.0 key then some s.1 else none;
  scan = visit;
  expire = λ s key. s;
  compact = λ s. s;
  scan_read = visit-lookup;
  scan_unique = visit-Unique;
}

abbrev client : List ℕ
client =
    b'd' ∷ b'a' ∷ b't' ∷ b'a' ∷ b':' ∷ b'c' ∷ b'l' ∷ b'i' ∷ b'e' ∷ b'n' ∷ b't' ∷ b':' ∷ b'a' ∷ []

durable_client : is_durable_identity_key client ≡ true
unfolding is_durable_identity_key
durable_client = refl

abbrev stores : ReplicatingKvStore Store Store
stores = record { primary = []; replica = []; has_mirror = true; mirror = none }

put_client : (replica_put map_store map_store stores client (b'x' ∷ []) (pos 0)).1 ≡ true
unfolding replica_put insert
put_client = refl

nothing_stored : (key : List ℕ) → lookup {V = List ℕ} key [] ≡ none
unfolding lookup
nothing_stored key = refl

abbrev written : ReplicatingKvStore Store Store
written = (replica_put map_store map_store stores client (b'x' ∷ []) (pos 0)).0

primary_lost_test :
    ((replica_get map_store map_store (record written { primary = [] }) client).1
      ≡ found (b'x' ∷ []))
    × (lookup client
          (replica_get map_store map_store (record written { primary = [] }) client).0.primary
        ≡ some (b'x' ∷ []))
primary_lost_test =
    primary_lost map_store map_store stores client b'x' [] (pos 0) durable_client tt put_client []
      (nothing_stored client) tt refl

all_copies_lost :
    (replica_get map_store map_store (record written { primary = []; replica = [] }) client).1
    ≡ found (b'x' ∷ [])
all_copies_lost =
    both_lost map_store map_store stores client b'x' [] (pos 0) durable_client tt put_client [] []
      refl (nothing_stored client) (nothing_stored client)

deleted_everywhere_test :
    replica_get map_store map_store (replica_delete map_store map_store written client).0 client
    ≡ ((replica_delete map_store map_store written client).0, missing)
deleted_everywhere_test =
    deleted_everywhere map_store map_store written client durable_client tt tt refl refl

-- A B-tree with an empty leaf as the hot store.
abbrev empty_leaf : Memory
empty_leaf = reset_btree_page (λ i. 255)

abbrev hot_tree : Tree
hot_tree = record { root = 3; pages = λ i. empty_leaf; allocated = 10 }

empty_leaf-Holds : Holds empty_leaf []
empty_leaf-Holds = (reset_btree_page-Holds (λ i. 255)).0

hot_tree_at_root : (key : List ℕ) → find_leaf 1 hot_tree 3 key ≡ some 3
hot_tree_at_root key = find_leaf_leaf 0 hot_tree 3 key empty_leaf-Holds.leaf

hot_tree_empty : (key : List ℕ) → kv_get 1 hot_tree key ≡ some none
unfolding lookup_cell
hot_tree_empty key = kv_get-Holds 1 hot_tree key 3 [] (hot_tree_at_root key) empty_leaf-Holds

abbrev cell_k : Cell
cell_k = record { key = b'k' ∷ []; value = b'v' ∷ [] }

abbrev put_k :
    (m : Memory) × (kv_put 1 hot_tree (b'k' ∷ []) (b'v' ∷ []) ≡ (set_page hot_tree 3 m, ok))
    × Holds m (cell_k ∷ [])
unfolding without insert_cell
put_k =
    put-leaf 1 hot_tree (b'k' ∷ []) (b'v' ∷ []) 3 [] (hot_tree_at_root (b'k' ∷ [])) empty_leaf-Holds
      (omega arith)

abbrev tree_k : Tree
tree_k = set_page hot_tree 3 put_k.0

tree_k_page : tree_k.pages 3 ≡ put_k.0
tree_k_page = set_page_same hot_tree 3 put_k.0

tree_k_leaf : Holds (tree_k.pages 3) (cell_k ∷ [])
tree_k_leaf = subst (λ m. Holds m (cell_k ∷ [])) (sym tree_k_page) put_k.2

tree_k_at_root : (key : List ℕ) → find_leaf 1 tree_k tree_k.root key ≡ some 3
tree_k_at_root key =
    find_leaf-set_page_root 1 hot_tree 3 put_k.0 key empty_leaf-Holds.leaf put_k.2.leaf
    ∙ hot_tree_at_root key

abbrev marker_cell : List Cell
marker_cell = record { key = b'm' ∷ []; value = b'1' ∷ [] } ∷ []

put_marker : (m : Memory) × (kv_put 1 tree_k (b'm' ∷ []) (b'1' ∷ []) ≡ (set_page tree_k 3 m, ok))
unfolding without insert_cell
put_marker =
    let (m, done, h) =
      put-leaf 1 tree_k (b'm' ∷ []) (b'1' ∷ []) 3 (cell_k ∷ []) (tree_k_at_root (b'm' ∷ []))
        tree_k_leaf (omega arith) in
    (m, done)

abbrev swap : HotSwapKvStore Tree Entry
swap = record {
  hot = hot_tree;
  legacy = some (b'k' ∷ [], b'v' ∷ []);
  marker_key = b'm' ∷ [];
  legacy_match = none;
}

abbrev pending : Store
pending = (b'k' ∷ [], b'v' ∷ []) ∷ []

pending_lem : (page : Entry) → swap.legacy ≡ some page → pending_of none (visit page []) ≡ pending
unfolding pending_of has_prefix
pending_lem page e =
    ap (λ o. elim o [ none ↦ pending | some p ↦ pending_of none (visit p []) ]) (sym e)

copied :
    copy_pending (btree_store 1) one_record pending swap 0
    ≡ (record swap { hot = tree_k }, (1, true))
unfolding copy_pending expire_legacy_key
copied = ground (arith, hot_tree_empty (b'k' ∷ []), put_k.1)

migrated :
    migrate_legacy (btree_store 1) one_record swap
    ≡ mark_done (btree_store 1) one_record (copy_pending (btree_store 1) one_record pending swap 0)
unfolding migrate_legacy migration_done pending_of has_prefix
migrated = ground (arith, hot_tree_empty (b'm' ∷ []))

marked : (mark_done (btree_store 1) one_record (record swap { hot = tree_k }, (1, true))).1.1 ≡ true
unfolding mark_done
marked = ground (arith, put_marker.1)

swap-Fits : (page : Entry) → swap.legacy ≡ some page → Fits (btree_store 1) one_record swap page
swap-Fits page e =
    subst
      (λ ps.
        AllFit (btree_store 1) one_record ps swap.hot
        × PutFits 1 (copy_pending (btree_store 1) one_record ps swap 0).0.hot swap.marker_key
            (b'1' ∷ []))
      (sym (pending_lem page e))
      (
        (
          λ full. tt,
          λ empty. (
            record {
              leaf = 3;
              cells = [];
              reached = hot_tree_at_root (b'k' ∷ []);
              held = empty_leaf-Holds;
              room = omega arith;
            },
            tt,
          ),
        ),
        subst (λ o. PutFits 1 o.0.hot swap.marker_key (b'1' ∷ [])) (sym copied)
            (record {
              leaf = 3;
              cells = cell_k ∷ [];
              reached = tree_k_at_root (b'm' ∷ []);
              held = tree_k_leaf;
              room = omega arith;
            }),
      )

-- The legacy record is read from the B-tree after the migration.
hot_swap_get-migrate_legacy_example :
    (hot_swap_get
      (btree_store 1)
      one_record
      (migrate_legacy (btree_store 1) one_record swap).0
      (b'k' ∷ [])).1
    ≡ (hot_swap_get (btree_store 1) one_record swap (b'k' ∷ [])).1
hot_swap_get-migrate_legacy_example =
    hot_swap_get-migrate_legacy (btree_store 1) one_record swap (b'k' ∷ []) (λ e. ground (arith, e))
      swap-Fits
      (ap (λ o. o.1.1) (migrated ∙ ap (mark_done (btree_store 1) one_record) copied) ∙ marked)
