-- ===== src/Lib.antt =====
-- shmutil: two containers in System V shared memory, written in C and C++: a FIFO ring of messages
-- (shmutil/shm_msg_queue.h, shmutil/shm_msg_queue.cc) and a hash table for many readers and one writer
-- (shmutil/shm_mrsw_hashtable.cc over shmutil/qhasharr.c).
--
-- The files:
--   Base         names of the libraries, Boolean tests, lists over the native numbers
--   Memory       byte memory behind a pointer, memcpy, 4-byte loads and stores (little-endian)
--   ErrorCode    enum ErrorCode (shmutil/error_code.h)
--   Atomic       AtomicInt32 (shmutil/atomic.h)
--   MsgQueue     class ShmMQ: `Shm` is the segment (MQStatInfo, *head_, *tail_, *pid_, the bytes from
--                block_ on), `ShmMq` the private fields of a handle; getstat, isEmpty, getMsgCount,
--                clearMQ, check
--     Send       enqueue, its three ways to write a message by themselves
--     Receive    dequeue
--     Attach     the constructor, getmemory, init, fini
--     Endpoints  producers and consumers, with and without a lock file
--     Ring, Wire positions in the ring; the contents of the queue as a list of bytes
--     Spec       a bounded FIFO of whole messages, and `Holds`: which messages a segment holds
--     Threads    enqueue and dequeue of one producer and one consumer without a lock, as steps in any
--                order; Seen, Facts, Produce, Consume, Fifo, the proofs
--     Room, Push, Front, Pop, Clear, Count, Counted, Refine, Lifecycle   the proofs, and Examples, runs
--   Lru          class SimpleLru (shmutil/simple_lru.h): list nodes with identities, and the map from keys
--                to iterators; Entries, lemmas on the map; Order, its specification as a list without
--                repetitions
--   Value        how MrswHashtable stores a value: encodeValueLen, decodeValueLen (shmutil/common.h),
--                encodeValueStr, verifyShmValue (shmutil/shm_mrsw_hashtable.cc); RoundTrip, the proofs
--   Hash         qhashmurmur3_32, qhashmd5_bin_to_hex (shmutil/qhash.c); Reference,
--                MurmurHash3 on a list of bytes; Bounds, the proofs on the digits
--   Table        qhasharr (shmutil/qhasharr.c, shmutil/qlibc.h): slots, _find_empty, _copy_slot,
--                _remove_slot, _remove_data, qhasharr_size, qhasharr_clear
--     Lookup     _get_idx, _get_data, qhasharr_exist, qhasharr_get, qhasharr_getnext
--     Store      _put_data
--     Update     qhasharr_remove, qhasharr_put, qhasharr_putstr
--     Numbers    qhasharr_putint, qhasharr_getstr, qhasharr_getint
--     Search, Usage, Found, Chain, Written, Stored, Frame, RoundTrip, PutGet   one put and get
--     Linked     when a table is well-formed: chains linked both ways, with the entry and the place of
--                each slot as ghost values, and a leading slot that counts the entries of its hash
--     Tally, Find, View                    entries counted and found; what qhasharr_get shows
--     Position, Freed, Deleted             _remove_data on a well-formed table
--     Linking, Grown, Added, Entered       _put_data on a well-formed table
--     Moved, Follow, Relocated, Recount, Same   slots that move, counts that change
--     Remove, Dup, LeadSlots, RemoveLead, Removed   the cases of qhasharr_remove
--     Putting, Colliding, Put              the cases of qhasharr_put
--     Empty, Runs                          new tables; runs of calls against a map
--     Counters, Uncounted, Counting, CountedPut, CountedMove, CountedRemove, CountedPutting, Sizes
--                usedslots and num against the slots, in every operation; runs of calls
--     Roomy, Succeeds, Values, Traversal   room for a value; qhasharr_getnext
--   Mrsw         class MrswHashtable: getValue, setValue, isExist, deleteKey, getNext, getStats, clearTable
--     Attach     the constructor, init, getShm, initLruMem
--     Elimination, Keeps   the proofs on the loop that removes old keys; SetGet, Rounds and
--                Serves, getValue after setValue
--   Each of these has Examples, runs on small inputs.
--
-- A uint32_t, an int and a size_t are natural numbers with the wrap-around written out (add32, sub32,
-- add64, sub64); an int is its bit pattern. A pointer reaches a memory without end, so that a write
-- behind the block or the caller's buffer would show. Blocks are below 2 ^ 31 bytes, as shmSize_ is an
-- int. Calls run alone, as under the lock file or the mutex, but in Threads: there each access to the
-- shared memory is a step, the accesses of a thread are in the order of the program, and the bytes of
-- a frame are written in any order and read in one step each for its header and for its data.
-- A slot of the table is a record whose union is a memory of bytes; sizeof is 12 for qhasharr_t and 260
-- for a slot. `errno` is a field of the table.
-- Rounds of loops: _find_empty and _get_idx come back to their start after maxslots slots; a chain is
-- followed for maxslots + 1 slots, where the code's loop_count ends it; the loop of _put_data stores a
-- byte at least in each round; the loop of __setValue takes a node off the list in each round.
-- Parameters: shmget and shmat (`Ipc`, `TableIpc`), getpid and kill (`Process`), open and flock
-- (`LockFiles`), the hash of a key, for which Hash has qhashmurmur3_32, and its digest (qhashmd5 of
-- shmutil/qhash.c, which calls md5.c), equality of keys, snprintf of a number and atoll.
--
-- Not modelled: NULL arguments, a malloc that fails, md5.c, mutex.h and current_thread.h (copies of
-- other projects' code), the programs under example/, the messages on stderr, accesses to the shared
-- memory that a compiler or a processor reorders, a reader of the table during a call of the writer.
pub mod Base
pub mod Memory
pub mod ErrorCode
pub mod Atomic
pub mod MsgQueue
pub mod Lru
pub mod Value
pub mod Hash
pub mod Table
pub mod Mrsw
