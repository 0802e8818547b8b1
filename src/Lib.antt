-- ===== src/Lib.antt =====
-- beansdb is a key-value store that speaks the memcached protocol. A key is routed to a bitcask,
-- which appends records to data files and keeps an index from the key to the place of its record.
-- The index is a hash tree, whose digests are compared between replicas.
--
-- The files and the code they model:
--   * Crc: src/crc32.c, the checksum in front of every record; Crc/Table holds its table and
--     Crc/Reference a CRC-32 bit by bit to compare it with.
--   * Fnv: src/fnv1a.h, the hash of keys, and `gen_hash` of src/record.c, the hash of values.
--   * Record: src/record.c and src/record.h, the format of a record: `compress_record`,
--     `decompress_record`, `encode_record`, `decode_record`, `record_length`. Record/FastRead is
--     `fast_read_record`, which reads a record from a file.
--   * HTree: src/htree.c, the index. HTree has the items, the blocks and the leaves, HTree/Tree
--     `add_item`, `split_node`, `get_item_hash` and `remove_item`, HTree/Visit
--     `visit_node`, HTree/Pool the calls `ht_new`, `ht_add2`, `ht_remove2` and `ht_get2`, HTree/Pool/Visits
--     `ht_visit`. The other modules below HTree are proofs.
--   * Bitcask: src/bitcask.c. Bitcask has the state, `bc_open2`, `check_key` of src/htree.c and the
--     versions of `bc_set`; Bitcask/Flush is `bc_flush` and `bc_rotate`, Bitcask/Access `bc_get`,
--     `bc_set` and `bc_delete`. A bitcask takes its index as a record of operations and laws, which
--     Bitcask/TreeIndex fills with the tree of HTree behind `check_bucket`. Bitcask/Spec is the map
--     of cells that the calls are compared with; the other modules below Bitcask are proofs.
--   * Codec: src/codec.c and src/codec.h, which shorten keys. Codec has the dictionary of formats, its
--     table, `dc_rebuild` and `dc_enlarge`; Codec/Format is `parse_fmt`, Codec/Keys `dc_encode` and
--     `dc_decode`, Codec/Dump `dc_size`, `dc_dump` and `dc_load`. The other modules below Codec are
--     proofs.
--   * Recovery: how an index is made from files. Recovery is `scan_record`, `scanDataFile` and
--     `scanDataFileBefore` of src/record.c, Recovery/Hints the hint files of src/hint.c, both over an
--     index that is given by its calls and laws. The other modules below Recovery are proofs.
--   * FreeList: src/item.c, the free list of item buffers; FreeList/Refines has the stack that it is
--     compared with.
--   * Varint: src/varint.h, `encode_varint` and `decode_varint`; Varint/Old has the
--     older form of two bytes.
--   * Store: `get_index` and `tree2range` of src/hstore.c and `check_bucket` of src/htree.c, how keys are
--     divided among the bitcasks. Store/Calls is `hs_get`, `hs_set`, `hs_delete`, `hs_append` and
--     `hs_incr` over bitcasks that are given by their calls and laws; Store/Casks fills these with
--     Bitcask. Store/Hashes is `hs_get_hash`, over the hash and the count of each
--     bitcask. The other modules below Store are proofs.
--   * Base: what the others share: tests, lists, words, slices.
--
-- A uint32_t is a natural number with its wrap-around written out; a signed field of a record is
-- held as its bit pattern, the version of an item as an integer. A buffer or a file is the list of
-- its bytes, from the pointer or from the start. The pool of tree nodes stands as the tree that it
-- lays out, with the number of levels that the pool has left; the recursion of `add_item` into
-- children goes one level down at a time, so that number also bounds it and no fuel is needed. The
-- loop of `encode_varint` has fuel for nine bytes, which 64 bits need at most. The loop that splits
-- a key has its length as fuel, since every round takes a character; the search in the codec's
-- table has the number of slots, and ends before that since a slot is always free. The scans of
-- data files and of hint files have fuel for every byte, and every round passes at least one.
--
-- A flush is three steps, between which the lock of the buffer is free, and a call runs between
-- other calls. A data file is a function of its number; where the source calls `exit`, a call gives
-- `none`. Writes to disk succeed, no optimization runs, and a new bitcask has no files and an empty
-- tree, which `bc_scan` makes. The loop that enlarges the write buffer has fuel for 32 rounds: the
-- size is a uint32_t, doubled in each. A limit of a data file 2^28 below 2^32 keeps every sum of a
-- position and a buffer's size from wrapping. Versions are ints: their sums wrap in two's
-- complement, where the source overflows and the C standard leaves the result open; a counter is
-- an int64_t in the same way.
--
-- Parameters: the QuickLZ library (src/quicklz.c is a copy of it) and the two comparisons of a size
-- with a fraction in floating point are the fields of `Env`; `key_hash`, which decodes a key and
-- hashes it, is the parameter `kh` of the tree, whose keys are those that the codec encoded; the
-- codec `dc_encode` of the keys in the tree, which is injective; the C library's `strtol`, `atoi`
-- and `snprintf` in the codec, as `CLib`; `isspace` and `iscntrl`, as `is_blank`, which holds of
-- zero; `safe_strtol`, around a call of the C library, is an argument of `tree2range`; the listing
-- for a key with "@", the text of the meta data for "?", and `strtoll`, `errno` and the printing of
-- a number in `hs_incr` are arguments of the calls of the store.
--
-- Not modelled: sockets, event loops, threads and locks, logging, the mapping of files, directories
-- and links; the ownership of a record's value; `buckets.txt`, the start, the end and the
-- optimization of a bitcask, the listing and the statistics of a store; the digests of inner nodes,
-- on which `bc_get_hash` rests, and the saved form of the tree; the building of an item for a
-- response.
pub mod Base
pub mod Crc
pub mod Fnv
pub mod Record
pub mod HTree
pub mod Varint
pub mod Store
pub mod Bitcask
pub mod FreeList
pub mod Codec
pub mod Recovery
mod Tests
