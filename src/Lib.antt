-- ===== src/Lib.antt =====
-- libumem is an object-caching allocator. Arenas of vmem.c manage ranges of addresses and import
-- them from one another; the object caches of umem.c take slabs from arenas; malloc.c stands on the
-- caches, and asks the table of the heap's spans whether a pointer is the library's.
--
-- Words are natural numbers below 2^64, and `+` and `-` wrap where the source's do: `add64`, `sub64`.
--
-- Word: the P2* macros of sol_compat.h, and `highbit` and `lowbit` of misc.c.
-- SpanTable: the sorted table of heap spans in vmem.c, `vmem_span_table_insert`,
-- `vmem_span_table_remove` and the lock-free `vmem_span_find`. The search has as fuel the number of
-- entries and one more, which is shown to be enough. A reader is given the list of what its rounds
-- load; a round is torn if the counter was odd or has changed.
-- Chains, Segs, Vmem: one arena of vmem.c under its lock. The list `vs_anext` is a list of segments;
-- a pointer to a segment is its place in that list; a freelist or hash bucket is the list of the
-- start addresses on it. `vmem_seg_alloc` is `seg_alloc`, from `shrink` and `carve`; `vmem_xfree` is
-- `xfree`, from `hash_delete`, `merge` and `retire`; `vmem_contains` and `vmem_size` are `contains` and
-- `vmem_size`. A panic is `none`. Left out: the segments kept for populating, the condition variable,
-- stack traces; the test of a freelist's neighbours for `vs_start == 0` is one of the list's length.
-- Left out too: the entry of the heap's own spans into the span table, which has its module, the
-- policies that choose a free segment (`vmem_xalloc`, `vmem_nextfit_alloc`), the import of spans, and
-- an arena's creation.
-- Arena: umem_arena.c. `umem_alloc` and `mmap` are parameters.
-- Ownership: umem_own.c. The header of a handle and its operations, and the sequences of calls on a
-- handle in debug mode as a step relation. A drop answers the header as it is when its memory is freed;
-- what a call on a freed handle reads is not modelled. Left out: the data's bytes and the log.
-- Slabs: the slab layer of umem.c, `umem_slab_create`, `umem_slab_alloc` and `umem_slab_free`, for one
-- cache under its lock. Left out: debugging patterns, the links' mangling, that the lock is dropped
-- while a slab is created, and the table of allocated buffers of a hashing cache, where the slab of a
-- buffer is found by the buffer's place instead; a second free of a buffer is not refused there.
-- Depot: the depot of a cache in umem.c. `depot_alloc`, `depot_free` and their variants that wait for
-- no lock are `umem_depot_alloc` and so on; which locks are busy, the CPU's hint and the nodes of CPUs
-- are arguments. Depot/WorkingSet is `umem_maglist_ws_update` to `umem_depot_ws_reap`. Left out: the
-- mangling of rounds, the shells of magazines, and the destructor.
-- Magazines: the CPU's two magazines, `_umem_cache_alloc` and `_umem_cache_free` under `cc_lock`. The
-- loops have fuel; two and three turns are shown to be enough. What `umem_slab_alloc`, the constructor
-- and the cache of magazines answer are arguments; buffers given to `umem_slab_free` are a list. Left
-- out: the restartable sequences, hooks and debugging, the retry after a failure, and that other
-- threads use the CPU's magazines while the lock is dropped for a new magazine.
-- Ptc: a bin of a thread's cache in umem_ptc.c, `umem_ptc_alloc` and `umem_ptc_free` from where the bin is
-- known, with `umem_ptc_bin_refill` and `umem_ptc_bin_flush`. What `_umem_cache_alloc` answers is an
-- argument, and the buffers given to `_umem_cache_free` are a list. Left out: the mangling of slots, the
-- table from sizes to bins, the creation and exit of a thread, and the small buffers.
-- Malloc: malloc.c, with the 64-bit layout. Memory is a function from addresses to tags. `umem_malloc`
-- and `umem_memalign` write the tags (`store_tags`, `store_memalign`) and `process_free`, which is
-- `process_free_umem`, reads them (`decode_tags`), tests them (`validate`) and clears them (`poison`).
-- What `_umem_alloc`, `vmem_xalloc` and the lookup of spans answer are arguments. Left out: the
-- bootstrap allocator, the guard against recursion, errno in `free`, and `realloc`.
-- Sizes: the table `umem_alloc_sizes` of umem.c and its changes by the options, `umem_alloc_sizes_add`,
-- `umem_alloc_sizes_remove` and `umem_alloc_sizes_clear`. A write behind the table is `none`.
-- Partition: umem_hash_partition.c. `create` and `create_with_sizes` are `hash_partitions_create` and
-- `hash_partitions_create_with_sizes`; the binary search of `get_claimant` has as fuel the number of
-- claimants, which is shown to be enough. Whether `malloc` succeeds is an argument. Left out: the
-- weights, which are floating-point numbers.
-- Envvar: envvar.c. `parse_uint` and `parse_size` (Envvar/Number) are `item_uint_process` and
-- `item_size_process` up to what they store; `process_item` and the functions that it calls are in
-- Envvar/Items, the tables of items, `umem_process_value` and `umem_process_envvars` in Envvar/Tables. The
-- texts of the environment and whether the program runs in secure mode are arguments; a read through
-- NULL and a write behind the table of sizes are `none`. The loop over a text, `text_loop`, has as fuel
-- two rounds more than the text has bytes, which is shown to be enough. Left out:
-- `umem_setup_envvars`, and messages.
-- Base and Bits: shared names, and the bit arithmetic behind the masks.
--
-- Not modelled: the life cycle of object caches in umem.c, the back ends of the heap, fork handling, and
-- diagnostics.
pub mod Base
pub mod Bits
pub mod Word
pub mod SpanTable
pub mod Chains
pub mod Segs
pub mod Vmem
pub mod Arena
pub mod Ownership
pub mod Slabs
pub mod Malloc
pub mod Depot
pub mod Magazines
pub mod Partition
pub mod Sizes
pub mod Envvar
pub mod Ptc
