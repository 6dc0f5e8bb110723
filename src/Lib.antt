-- ===== src/Lib.antt =====
-- Verification of the discodb C library, which stores a map from keys to lists of values in one
-- immutable buffer and answers queries in conjunctive normal form over its keys.
--
-- The values of a key are ids. While a database is built, keys and values stand in the maps of
-- src/ddb_map.c, whose keys stand in a buffer (src/ddb_membuffer.c), and src/ddb_deltalist.c collects
-- the ids of a key; src/ddb_delta.c then sorts and packs them, with the bit fields of src/ddb_bits.h,
-- and src/ddb_huffman.c compresses the values. src/ddb.c opens the buffer and finds the ids of a key;
-- a query in src/ddb_cnf.c reads ids back through cursors and combines them.
--
-- Files:
--   Common: Boolean tests, lists, powers and binary digits over the native numbers.
--   Libc: malloc and qsort as parameters with the laws of the C standard. Libc.Instances has one
--     model of each, for the tests.
--   Bits: read_bits and write_bits of src/ddb_bits.h. A buffer is the list of its bytes.
--   Delta: src/ddb_delta.c. bits_needed, allocate_bits, id_cmp and encode (ddb_delta_encode, as
--     encode_sorted after the sort, with encode_step for a round of its loop) write a list;
--     delta_cursor and cursor_next read it.
--   Deltalist: src/ddb_deltalist.c. A Segment is a struct dsegment without its link, a Deltalist the
--     list of segments with min_maxval; append, to_array and mem_usage are the functions of the same
--     name after ddb_deltalist_, with new_segment, segment_full, grow_segment and matching_segment.
--   Queue: src/ddb_queue.c. queue_new, queue_push, queue_pop, queue_peek and queue_length on a ring of
--     slots; the abstract queue is the list of its elements.
--   KeyList: src/ddb_list.c. list_new, list_append and list_mem_usage on a growing array.
--   Membuffer: src/ddb_membuffer.c. The pages of keys, from the emptiest of which a key is copied.
--   Map: src/ddb_map.c. map_new, map_lookup, map_insert and the cursors, for keys that are integers or
--     strings (KeyOps, with the contract KeyLaws, in Map.Keys); a pointer to a value is a Place. The
--     hash is a parameter.
--   Huffman: src/ddb_huffman.c. Huffman.Code has merge and allocate_codewords, which make the code
--     from the sorted symbols, make_codebook and save_codemap, whose requests for
--     memory are a parameter; Huffman.Codec has compress and
--     decompress. Huffman.Tokens says what a compressed value means.
--   Reader: src/ddb.c. A Ddb is a struct ddb whose pointers are offsets in the buffer, a Cursor a
--     struct ddb_cursor whose Kind is the function of its next field, which ddb_next calls. Reader.Loads
--     has loads, dumps and features, Reader.Dump has dump, and Reader has the cursors and getitem.
--   Cnf: src/ddb_cnf.c. Cnf.Window has the bit arrays, Cnf the functions from find_max_clause to
--     ddb_cnf_cursor_next, over an interface of terms (TermOps, with the contract TermLaws);
--     Cnf.Terms implements it by ddb_val_next and ddb_view_next.
--   CommandQueue: erlang/c_src/queue.c. create is queue_new; push, pop, send and receive are the
--     functions of the same name after queue_, a step each, since each holds the lock; a thread that
--     waits on the condition is among the sleeping ones, and wake is enif_cond_signal, a parameter. The
--     items are linked in a heap.
--
-- Integers are natural numbers with the wrap-around of their width written out where the code can
-- reach it. A request for memory may fail: Malloc returns none, or a test says whether a request of
-- a size is met, and the theorems cover both outcomes. Loops run on fuel: 32 rounds for the bits of
-- a uint32_t; len + 8 for the growth of a buffer by steps of more than a byte; a round for each
-- value for the growth of an array; base_id and 1024 rounds for the ids of a term below a window and
-- in it, since the ids ascend; for the windows of a query a number with which they pass the
-- largest id; a round for each group of a value that is compressed, for each bit of one that is
-- decompressed and for each symbol that is merged, and the depth 16, which the code has itself, for
-- the code words; a round for each byte that is dumped, which is enough if each call of write makes
-- progress; and for the count of a cursor one more than its entries.
--
-- Not modelled: freeing memory, mapping files, debugging output, the counting and sorting of symbols
-- before a code is made, the memory statistics of maps, the writer (src/ddb_cons.c, src/ddb_view.c),
-- the opening of queries, negated terms of queries, the third-party hash and perfect hash
-- (src/ddb_hash.h, src/ddb_cmph.c), the command line tools (src/util) and the bindings (the rest of erlang,
-- python, lua).
pub mod Common
pub mod Libc
pub mod Bits
pub mod Delta
pub mod Deltalist
pub mod Queue
pub mod KeyList
pub mod Membuffer
pub mod Map
pub mod Cnf
pub mod Huffman
pub mod Reader
pub mod CommandQueue
