-- ===== src/Lib.antt =====
-- HSCFS, a file system whose metadata the host keeps and the SSD applies from a journal. This library
-- models the host's caches, the journal and the allocation of ids and blocks, and proves what they do.
--
-- The parts and their files:
--
-- * Lru.antt models `lru_replacer`, CacheManager.antt `cache_hash_index` and `generic_cache_manager`
--   (inc/cache/cache_manager.hh). The iterators of `key_states` are the keys themselves: the invariant says
--   that a key stands once in one list.
-- * SitNatCache.antt models the cache of SIT and NAT blocks (inc/cache/SIT_NAT_cache.hh,
--   src/cache/SIT_NAT_cache.cc) over a cache manager, SitNatCache/Handles.antt its handles. An entry that
--   is referred to is pinned and so never replaced. SitNatCache/Coherence.antt and SitNatCache/Update.antt
--   give the abstract view, the table of blocks that cache and device hold together.
-- * NodeBlockCache.antt models the cache of node blocks (inc/cache/node_block_cache.hh,
--   src/cache/node_block_cache.cc) with the references of nodes to their parents and the dirty list.
-- * Journal.antt models the journal of a transaction (inc/journal/journal_type.h,
--   inc/journal/journal_container.hh); Journal/Writable.antt, Journal/Merge.antt, Journal/Output.antt and
--   Journal/Writer.antt the functions of src/journal/journal_writer.cc that merge its entries and lay them
--   out in blocks. A block is the list of its items, with their types and lengths.
-- * JournalProcessor.antt models the thread that writes journals to the SSD's ring and follows their
--   application (src/journal/journal_processor.cc, inc/journal/journal_processor.hh).
-- * ReplaceProtect.antt models what happens when a transaction has been applied
--   (src/fs/replace_protect.cc): the versions of the caches' blocks and the segment lists.
-- * Meta.antt is the state that the allocators share, Meta/Nat.antt models src/fs/NAT_utils.cc and the
--   node ids of src/fs/super_manager.cc, Meta/Sit.antt src/fs/SIT_utils.cc, and Meta/Segments.antt the
--   segments and blocks of src/fs/super_manager.cc. Each change goes to a cache, to the super block and to
--   the journal of the current transaction.
-- * FileMapping.antt models `get_node_path` and FileMapping/Pointers.antt the pointers in nodes
--   (src/fs/file_utils.cc); FileMapping/Shape.antt describes the index tree independently.
--   FileMapping/Mapping.antt models `get_addr_of_block` and `update_block_mapping` over the node blocks of a
--   file, FileMapping/Resizer.antt `file_resizer`: Reduce.antt there its reduction, Expand.antt its expansion.
--   There the allocation of ids and the invalidation of addresses are parameters, over a state of the rest
--   of the file system. For the ids this is `alloc_nid` of Meta/Nat.antt over `Meta`: the theorems on the
--   expansion ask for a state in which ids can be given out, and of the allocation that it gives an id not in
--   use and leaves such a state; Meta/FreeIds.antt defines this as a well-formed free list in the NAT and
--   proves it of `alloc_nid`, and the runs in Tests use that function.
-- * Directory.antt models the entries in a block of a directory, Directory/Hash.antt the hash of a name,
--   Directory/Buckets.antt the levels of buckets and the appending of a level, which expands the file, and
--   Directory/Lookup.antt the search for a name and for a place to create it (src/fs/directory.cc).
--   Directory/Layout.antt has the abstract view of a block, a row of entries and free slots. Bitmap, entries
--   and names are fields of their own; where the fourth word of the bitmap overlaps the first entry, a removal
--   changes its hash (`reset_overlap`).
-- * FdArray.antt models src/fs/fd_array.cc, Srmap.antt src/fs/srmap_utils.cc.
-- * PageCache.antt models the page cache of a file (inc/cache/page_cache.hh, src/cache/page_cache.cc);
--   PageCache/Accounting.antt says who holds the references of a page. File.antt models read, write and
--   truncate (src/fs/file.cc) over it. For read and write the index of the file and the device are
--   parameters; truncate resizes the node blocks of the file with the model of `file_resizer`, and
--   File/Coherence.antt has the abstract view, the bytes of the file by block and offset.
-- * OpenedFile.antt models a descriptor with its flags and position (src/fs/opened_file.cc).
-- * Path.antt models the iterator over the names of a path, the helpers that split a path, and the request
--   for its resolution (src/fs/path_utils.cc, inc/fs/path_utils.hh). A string is a list of characters.
-- * Base.antt and Fs.antt hold what the parts share; the files of Tests run the theorems on small data.
--
-- Conventions. `Option` is a call that meets no exception, `none` being a failed assertion or undefined
-- behaviour; `Outcome` (Base/Outcome.antt) is one that may throw, with the state that it leaves. Words wrap
-- around as `% 2 ^ 32` or `% 2 ^ 64` where the source's counters do. The device is a parameter that gives a
-- block or fails. The order in which an `std::unordered_map` is traversed is a parameter too.
--
-- Fuel. `generic_calculate_writable_entry_num` calls itself once at most, and has fuel for it. The loop of
-- `do_replace` of the SIT and NAT cache has one step more than there are keys. The loop of the journal writer
-- has two steps for every entry and some for the ends of blocks. The loops of read and write have one step
-- for every page that the range can touch, and one to stop; the loop over a path has one for every
-- character, and one to stop. The search in a block of a directory has a step for every slot, and one to
-- stop, the hash of a name one for every character, and one more. These are proved to be enough. In the
-- node block cache the height and the number of steps are arguments, and no theorem is about their bounds.
--
-- Not modelled: threads, locks and timers, input and output but for its result, logging, the
-- cache of directory entries and what `create`, `link` and `remove` do with it, the lookup of paths, the
-- creation and deletion of files, the write back of files, the commit of a transaction, the communication
-- layer, and the tools. The handles of nodes and directory entries in a transaction's record are left out.
pub mod Base
pub mod Fs
pub mod FdArray
pub mod FileMapping
pub mod Lru
pub mod CacheManager
pub mod SitNatCache
pub mod Journal
pub mod JournalProcessor
pub mod Meta
pub mod NodeBlockCache
pub mod PageCache
pub mod Directory
pub mod File
pub mod OpenedFile
pub mod Path
pub mod ReplaceProtect
pub mod Srmap
pub mod Tests
