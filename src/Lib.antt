-- ===== src/Lib.antt =====
-- The data plane of aura-redis, the in-memory server of native/src: hash tables of entries in one or
-- two tiers, their expiry, their eviction under a memory limit, and the commands over them. What is
-- here models native/src/ar_core.c, native/src/ar_types.c, native/src/ar_rdb.c, parts of
-- native/src/ar_server.c and the structures of native/src/ar_internal.h; the C function that a
-- definition translates has the definition's name.
--
-- Prelude: names and tests that all modules share, lists with `length` over the native numbers.
-- Bytes: byte strings and the FNV hash (`hash_bin`). Entry: values, entries, their sizes.
-- Table: bucket arrays of chains (`find_in_table`, `unlink_entry`, `rehash_table`). Its children
--   prove sums over tables (Weight), searches (Search), that entries stand in their buckets
--   (Placed), rehashes (Rehash) and walks (Member).
-- Core: the state, `struct ArCore` without network and configuration, and `ar_core_create`. Its
--   children are Counters (`ar_mem_*`, `ar_type_stats_*`, `entry_set_expire_at`), Watch
--   (`ar_watch_touch`), Free (`ar_entry_free_ex`), Find (`ar_find_entry_ex`), Store (a write through
--   an entry pointer), Tiers (demotion, promotion, rehash, layouts), Evict (the kernels and
--   `maybe_evict`), Set (`ar_entry_set_ex`, SET, MSET), Expire (EXPIRE to PTTL), Keys (DEL, EXISTS,
--   pins, FLUSHDB, the active expiry), Strings (`get_ptr` of
--   native/src/ar_server.c, which GET runs, `ar_get_bin`, STRLEN, APPEND), Typed
--   (`ar_entry_get_typed`, `ar_entry_get_or_create` of native/src/ar_types.c and the accounted write
--   of a changed object, for any type of objects), Lists (`ar_list_*`,
--   with a list as the sequence of its values), ZSets (`ar_zset_*`, with scores as the bit patterns
--   of doubles, ordered as IEEE 754 says), Hashes (`ar_hash_*`, with fields named by their names) and
--   Scan (SCAN, KEYS, DBSIZE; the pages of KEYS run on the number of buckets, as each goes on behind
--   the one before it). Each has its proofs in modules below it.
--   Core/Invariant states the invariant: every key stands once, in its bucket, in one tier, and every
--   counter is the sum over the entries that it stands for. Core/Examples evaluates the theorems at a
--   small state.
-- Glob: `ar_glob_match`, with a relation that says what a pattern matches (Spec) and the proof that
--   the matcher decides it (Decides). Its fuel counts the steps that the matcher can take.
-- Resp: `parse_bulk` and `parse_command` of native/src/ar_server.c over the bytes from a position on;
--   Encode has the requests that clients write, RoundTrip and Sound relate the parser to them.
--   Resp/Reads is `process_reads`, the loop over a connection's read buffer, for any `dispatch`; its
--   fuel is the length of the buffer, which every command shortens.
-- Dispatch: the head of `dispatch` of native/src/ar_server.c, its guards and the transactions, for
--   any commands behind them. `dispatch` calls itself only from EXEC, which is never queued, so a
--   depth of two is enough.
-- Snapshot: native/src/ar_rdb.c; Format has the numbers and blobs as bytes, Write what a save writes,
--   Read the load into the data plane, Save the two files, the calls that can fail and the child of
--   BGSAVE, Paths the file's name. Replay is the load without the bytes; its loops run on the counts
--   that the file gives. Numbers, Elements, Reads and RoundTrip take the bytes apart; Puts, Commands,
--   Deadlines, Restores and Kept follow one key through the load, Restarted a whole restart, and OneList
--   is a data plane to try it on.
-- Slowlog: the latency counters, the slow log's ring and the slots that SLOWLOG GET reads, of
--   native/src/ar_server.c. The loop that wraps an index runs at most as often as the index is below
--   zero, which is its fuel.
--
-- State is passed explicitly. An entry pointer is the entry with the tier it stands in, and is named
-- by its key, which the invariant makes unique; a write through it overwrites the table in place.
-- `rand` is a parameter, a function from the number of the call to its value, and the state counts
-- the calls; `ar_now_ms()` is a parameter `now`, one reading for the whole of an operation, of an
-- eviction and of a load, where the code reads the clock again for every command of a load and for
-- every entry that an eviction samples. The 64-bit sums of bytes and of deadlines wrap and their subtractions saturate or wrap as in the code; theorems say
-- where they need the sums to stay below 2^64. Counters of events and the access clock do not wrap.
-- `rand() % (int)nb` is taken for tables below 2^31 buckets. Loops that sample run on the code's own
-- bounds (64, 128 and the eviction limit), so no further fuel is needed.
--
-- Allocation does not fail, and NULL arguments are not modelled. Eviction plugins, which
-- `dlopen` loads at run time, are left out; the kernels are the built-in six. Not modelled: the
-- server's sockets, TLS, the single commands' argument parsing and replies, configuration, what a
-- crash of the machine leaves of a file (fsync), HINCRBY and HSCAN, INCR and RENAME.
pub mod Prelude
pub mod Bytes
pub mod Entry
pub mod Table
pub mod Core
pub mod Glob
pub mod Resp
pub mod Dispatch
pub mod Slowlog
pub mod Snapshot
