-- ===== src/Lib.antt =====
-- A model of CalicoDB, a key-value database that keeps its records in B+-trees on the pages of one
-- file.
--
-- The program. A database file is a row of pages of equal size. Page 1 starts with the file header
-- (src/header.h) and is the root node of the main tree. A tree node (src/node.cpp) is a slotted page: a
-- node header, an indirection vector of cell offsets, a gap, and the cell area with free blocks
-- threaded through it. The numbers on a page are little-endian or varints (src/encoding.h). Above the
-- pages stand the pager with its cache, the freelist, the pointer map and the write-ahead log, and
-- above these the tree, its cursors, the buckets and the database object.
--
-- The files.
--   Common          shared names, Boolean tests, lists, and the laws of bit operations (Common/Bits).
--   Bytes           src/encoding.h, fixed widths. A buffer is a function from offsets to bytes; a
--                   pointer is an offset. Bytes/Laws has reads after writes.
--   Varint          src/encoding.h, variable lengths. Varint/Groups has the bytes as groups of seven
--                   bits, Varint/RoundTrip decoding after encoding.
--   Header          src/header.h and src/header.cpp. Header/FileHdr and Header/NodeHdr are the fields,
--                   Header/Checks the proofs about the checks.
--   Node            src/node.cpp: insert_ivec_slot, remove_ivec_slot, take_free_space,
--                   allocate_from_freelist, allocate_from_gap and BlockAllocator::allocate,
--                   freelist_size and release under their own names. Node/Slots, Node/Chain,
--                   Node/Sizes, Node/Allocate and Node/Release hold the proofs; Node/Chain says what a
--                   well-formed list of free blocks is.
--   Cell            src/node.h and src/node.cpp, the cells of a node: Cell/RoundTrip parses what was
--                   encoded, Cell/Bounds says how much of a payload stands in the node.
--   Bufmgr          src/bufmgr.cpp and src/bufmgr.h. Bufmgr/PageTable is the hash table of the cached
--                   pages, with its laws in Bufmgr/Lookups, and Bufmgr/Cache is Bufmgr itself: page
--                   references by address, the lists of those in use and those that can be evicted, and
--                   their counts. Bufmgr/Flags and Bufmgr/Known say what its operations keep.
--                   Bufmgr/Dirtylist is dirtylist_merge and Dirtylist::sort, Bufmgr/Sort the proof.
--   Pager           src/pager.h, the operations that the parts above the pager call, as a record of
--                   functions, of which nothing is assumed (Pager/Calls makes the record from the
--                   pager's own functions); and src/pager.cpp, where every method keeps its name.
--                   Pager/State has the state with its modes and what changes pages, Pager/Buffers
--                   acquire, allocate and release with the buffers behind them, Pager/Transaction the
--                   transactions from lock_reader to finish, and Pager/Lifetime open and close, on a
--                   record Storage of what the log, the file and the allocator answer. Pager/Invariant
--                   is the invariant of assert_state, which Pager/Purging, Pager/Writing,
--                   Pager/Committing, Pager/Releasing, Pager/Reading and Pager/Locking follow through
--                   the methods, Pager/Runs has the states that calls reach, and Pager/Errors and
--                   Pager/Forgetting what an error leaves.
--   PointerMap      src/pointer_map.cpp on that record. PointerMap/Layout says where the entries stand,
--                   PointerMap/Entries what is read after a write.
--   Freelist        src/freelist.cpp on that record: add and remove, with a function for each branch of
--                   the loop. Freelist/References counts the references to each page that they take and give back.
--   Logging         src/logging.cpp, consume_decimal_number; Logging/Decimal has the proof.
--   HashIndex       src/wal.cpp, the index of the write-ahead log: groups of frames, each with a hash
--                   table that is probed slot by slot. HashIndex/Groups has the arithmetic,
--                   HashIndex/Build what a well-formed group is and how it grows, HashIndex/Search the
--                   search in one group, HashIndex/Cleanup the clearing of old entries,
--                   HashIndex/Lookup the search over all groups, and HashIndex/Assign the entry of the
--                   next frame. What shm_map answers, a status with or without an address, is a
--                   parameter.
--   Wal             src/wal.cpp, the log itself: its frames with encode_frame, decode_frame,
--                   write_frame and rewrite_checksums, on a file given by an interface. Wal/Checksum
--                   and Wal/Frames hold the lemmas on one frame, Wal/RoundTrip what is read back.
--                   Wal/Recovery is recover_index with one function per loop and label; Wal/Prefix has
--                   the log as a sequence of frames and one iteration, Wal/Recovered the loops, and
--                   Wal/Index the whole. Wal/Connection is a connection with its locks (Wal/Headers
--                   on its comparison of headers); Wal/Reading and
--                   Wal/Rollback prove its read and its rollback. Wal/Reader is try_reader and
--                   start_read, with Wal/StartRead; the files, the locks and the other connections are
--                   a World, a new one for each try. Status and the chaining of statuses are in Pager.
--   Slice           include/calicodb/slice.h and truncate_suffix of src/tree.h: the order of keys, with
--                   the proofs in Slice/Order.
--   Tests           concrete runs, and each theorem at a concrete input.
--
-- Numbers. A uint32_t is a native number; where the source subtracts, `sub32` wraps at 2 ^ 32. Shifts
-- are products and quotients by powers of two, and casts are remainders.
--
-- Fuel. The loop of Freelist::remove goes over its attempts, which the source bounds by the length of
-- the list. The walks along the free blocks of a page take fuel and give `none` when it runs out; a
-- chain has fewer blocks than a quarter of the page's bytes and one, and freelist_size is given more
-- rounds than that. start_read has 102 tries, since try_reader gives up when it has had 101. The
-- capacity of the table of pages doubles at most as often as there are buffers. decode_varint has six
-- rounds, since its shift passes 28 in the sixth.
--
-- Not modelled: the insertion of cells into a node and its defragmentation, the writing of transactions
-- and checkpoints in the write-ahead log, the tree and what stands above it; nor system calls, memory
-- allocation, which fails in the pager only, and the formatting of messages.
pub mod Common
pub mod Bytes
pub mod Varint
pub mod Wal
pub mod Header
pub mod Node
pub mod Bufmgr
pub mod Pager
pub mod PointerMap
pub mod Logging
pub mod HashIndex
pub mod Freelist
pub mod Slice
pub mod Cell
mod Tests
