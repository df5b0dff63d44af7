-- ===== src/Lib.antt =====
-- UltimateDB: an embedded Go database whose records live on 32768-byte slotted pages, with
-- transactions by strict two-phase locking, bitmap indexes and a log. This library models its
-- storage core and proves what makes it correct.
--
-- The parts, and the files that model them:
--   - Memory, Bytes: a page's Data array is a function from ℕ to ℕ; words are little-endian, as
--     encoding/binary writes them. A word keeps its wrap-around (% 2 ^ w).
--   - Page: storage.go's Page: the header accessors, Init, GetSlot, WriteSlot and IsSafeForInsert
--     on the bytes. Page/Record is the layout of a record that db.go writes, Page/Contents the
--     predicate Holds that a page's bytes frame a list of records, and Page/Loop the slot loop
--     that Read, Scan and compactPage share.
--   - Device: vfs.go's MemDevice, and storage.go's DiskManager on it.
--   - BTree: btree.go. BTree is a page's header and cells, BTree/Leaf and BTree/Inner the
--     operations on one page (insertIntoLeaf, deleteLeafCell, findChildInInternalNode,
--     insertIntoInternal), BTree/Tree the pages of the pool with FindLeaf, Insert,
--     pessimisticInsert, SplitLeaf, SplitInternalNode and promoteToParent, BTree/Cursor the
--     cursor, SortMergeJoin and Scan. BTree/Tree/Formed is the invariant of the tree.
--     BTree/Leaf/Cells and BTree/Inner/Entries are the predicates that a page holds a list of
--     cells or of entries.
--   - Kv: kv_store.go's Get, Put, Delete and iterator on such a tree, and what opening a store
--     does (Kv/Recovered). Kv/Laws states what a client sees, Kv/Lost what it sees when the root
--     is a full leaf.
--   - Pool: storage.go's BufferPool with lru_policy.go's LRUEvictionPolicy. The block device and
--     the checksum are parameters, a call under the pool's mutex is one step.
--   - Range: range.go's RangeCursor, with DB.Scan a parameter.
--   - Db: db.go's DB.Read (Db/Read), DB.Scan (Db/Scan), DB.compactPage (Db/Compact) and DB.Write
--     (Db/Write) on one page. The time and the table of active transactions are arguments; a
--     run-time panic is a value of the result. compactPage packs the records in the order of the
--     map's list, one of those that Go's range may take (Db/Compact/Order). Db/Write/Refine states
--     the refinement of Write to a list of records, Db/Laws what a client sees.
--   - Locks: lock_manager.go. Acquire is cut at its channel receive: `acquire` runs up to it and
--     `resume` is one round of the loop after it; `Step` lets any transaction take any step at any
--     time.
--   - Roaring: roaring.go's bitmaps. Go's maps are association lists, and the loops over them
--     visit the list in its order. Roaring/Stored is Serialize and Deserialize, Roaring/Listed
--     ToArray.
--   - Index: index.go. Index is the tokenizer and MemIndex, Index/Segment the bytes of
--     WriteSegment and what SegmentSearcher reads of them, Index/Varint the varints of
--     encoding/binary. A text is a list of code points.
--   - Query: ast.go's ParseQuery and Execute, and index.go's Search. The parser's state is the
--     tokens it has left; Query/Printed prints queries, Query/Answers says which documents a query
--     describes.
--   - Uql: query.go's lexer (Uql) and ParserUQL (Uql/Parser), a statement being a list of bytes
--     and the lexer's state the bytes it has left. Bytes/Utf8 is Go's reading of a string as code
--     points, Uql/Numbers strconv.
--   - Wal, Recovery: wal.go's log as the bytes of its file, and recovery.go's analysis, redo and
--     undo passes over them (the last in Recovery/Undo). CRC32 and the page store are parameters;
--     `append` is a call that no other overlaps.
--   - Cache: query.go's MVCCCacheStore, with the clock an argument of every operation.
--   - Compression: the run-length pass of compression.go; the code tables are left out.
--   - Stores: the two stores built on a key-value store. Stores itself is that interface
--     (interfaces.go's KVStore), with the laws that a client relies on, each for an operation that
--     the store has room for, and Stores/OnBTree fills it with the B-tree of kv_store.go;
--     Stores/Replica is kv_replica.go, Stores/HotSwap hotswap_store.go, and Stores/Durability and
--     Stores/Migration what they promise. An operation in a transaction of its own is one
--     operation, and its success includes the commit and the flush.
--   - Prelude: shared names, Boolean tests, maps, equality.
--   - Tests: instances of the theorems at concrete inputs.
--
-- Bounds. A page holds records whose bytes stay on it, so slot counts and offsets are below 2 ^ 16
-- and no 32-bit word wraps; a record of 2 ^ 31 bytes or more is outside the theorems on Write
-- (Fits). The loop over the evictor's victims runs on fuel, since it need not end. The walks down
-- a tree and along its leaves run on fuel, since nothing in the bytes of the pages bounds them;
-- the purge of a key runs on the number of cells. Loops are structural: on slots, on list
-- elements, on map entries. The run-length pass runs on the length of its block, of which every
-- round takes a byte. The passes over the log run on fuel, the length of the file: every round
-- takes the 49 bytes of a header at least. The undo pass runs on the sum of the LSNs in the table,
-- of which a round lowers one or drops it. The query parser recurses on what MaxQueryDepth leaves
-- of its depth, its loops on the number of tokens, of which a round takes one at least; initDict's
-- loop runs on the number of bytes, of which a round takes twelve. The loop over a WHERE clause
-- runs on the bytes the lexer has left and three more, for the two tokens read ahead and the end.
--
-- Not modelled: goroutine scheduling other than the lock manager's, files and the operating
-- system, JSON, gob and cgo layers (kernel.go, orm.go, interfaces.go), page latches, the
-- composition of the tree with the buffer pool (the tree's pages are a function of their ids, and
-- a fetched page is always there), the execution of query.go's statements, the code tables of
-- block compression, and the flusher's goroutine.
pub mod Prelude
pub mod Bytes
pub mod Memory
pub mod Page
pub mod Device
pub mod BTree
pub mod Kv
pub mod Pool
pub mod Range
pub mod Db
pub mod Locks
pub mod Roaring
pub mod Index
pub mod Query
pub mod Uql
pub mod Wal
pub mod Recovery
pub mod Cache
pub mod Compression
pub mod Stores
mod Tests
