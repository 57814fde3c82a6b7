-- ===== src/Directory/Lookup.antt =====
-- The search for a name in a directory, and the place where an entry is created (src/fs/directory.cc,
-- `lookup`, `get_create_pos`). The blocks of the directory are those in the cache of its data blocks or on
-- the SSD; a block that is not allocated is a hole.
pub mod Levels
pub mod Scan
pub mod Block
pub mod Answers
pub mod Create
use hscfs.Base.{
  ℕ, zero, suc, ◌+◌, ◌-◌, ◌*◌, ◌%◌, ◌^◌, List, [], ◌∷◌, Bool, true, false, not, ◌&&◌, ◌||◌, Option,
  none, some, is_some, ltb, leb, ◌==◌, if◌then◌else◌, put, nat_key, length, ◌>>=◌, ◌>>◌, guard,
}
use hscfs.Fs.{invalid_nid}
use hscfs.FileMapping.Resizer.{FileNodes, size_to_block}
use hscfs.Directory.{
  hscfs_ft_unknown, get_dentry_slots, DentryBlock, formatted, hscfs_find_target_dentry,
  create_dentry_in_blk, remove_dentry_in_blk,
}
use hscfs.Directory.Hash.{hscfs_dentry_hash}
use hscfs.Directory.Buckets.{bucket_num, bucket_block_num, bucket_start_block_index, DirInode}

pub record DentryStorePos : Type 0 where
  pub blkno : ℕ
  pub slotno : ℕ

-- A position that is not valid is `none`.
pub record DentryInfo : Type 0 where
  pub ino : ℕ
  pub type : ℕ
  pub store_pos : Option DentryStorePos

pub record Directory (Fs : Type 0) : Type 0 where
  pub inode : DirInode Fs
  pub blocks : ℕ → Option DentryBlock

abbrev pub no_info : DentryInfo
no_info = record { ino = invalid_nid; type = hscfs_ft_unknown; store_pos = none }

-- A name of length 0 in a full block would read a position that was not set.
unfoldable pub find_dentry_in_block : (ℕ → Option DentryBlock) → ℕ → List ℕ → ℕ → Option DentryInfo
find_dentry_in_block blocks blkno name name_hash = elim (blocks blkno) [
  | none ↦ some (record no_info { store_pos = some (record { blkno = blkno; slotno = 0 }) })
  | some block ↦ do
    found ← hscfs_find_target_dentry name name_hash block
    elim found.target [
      | none ↦
          if leb (get_dentry_slots (length name)) found.max_slots
          then (do
            pos ← found.empty_bit_pos
            some (record no_info { store_pos = some (record { blkno = blkno; slotno = pos }) }))
          else some no_info
      | some slot ↦ some (record {
        ino = (block.dentry slot).ino;
        type = (block.dentry slot).file_type;
        store_pos = some (record { blkno = blkno; slotno = slot });
      })
    ]
]

abbrev pub first_pos : DentryInfo → DentryInfo → DentryInfo
first_pos target_info cur =
    if not (is_some target_info.store_pos) && is_some cur.store_pos
    then record target_info { store_pos = cur.store_pos }
    else target_info

-- The loop over `n` blocks of a bucket.
unfoldable pub lookup_blocks :
    ℕ → (ℕ → Option DentryBlock) → ℕ → List ℕ → ℕ → DentryInfo → Option DentryInfo
lookup_blocks zero blocks blkno name name_hash target_info = some target_info
lookup_blocks (suc n) blocks blkno name name_hash target_info = do
  cur ← find_dentry_in_block blocks blkno name name_hash
  let rest = lookup_blocks n blocks (blkno + 1) name name_hash (first_pos target_info cur)
  if not (cur.ino == invalid_nid) then some cur else rest

-- The loop over `n` levels.
unfoldable pub lookup_levels :
    {Fs : Type 0} → ℕ → Directory Fs → ℕ → List ℕ → ℕ → DentryInfo → Option DentryInfo
lookup_levels zero dir level name name_hash target_info = some target_info
lookup_levels (suc n) dir level name name_hash target_info = do
  let num_buckets = bucket_num level dir.inode.i_dir_level
  let start_blkno = bucket_start_block_index level dir.inode.i_dir_level (name_hash % num_buckets)
  guard (leb (start_blkno + bucket_block_num level) (size_to_block dir.inode.file.i_size))
  info ← lookup_blocks (bucket_block_num level) dir.blocks start_blkno name name_hash target_info
  let rest = lookup_levels n dir (level + 1) name name_hash info
  if not (info.ino == invalid_nid) then some info else rest

unfoldable pub lookup : {Fs : Type 0} → Directory Fs → List ℕ → Option DentryInfo
lookup dir name = do
  name_hash ← hscfs_dentry_hash name
  lookup_levels (suc dir.inode.i_current_depth) dir 0 name name_hash no_info

-- `test_bitmap_pos` over the slots that a name needs.
unfoldable pub slots_free : (ℕ → Bool) → ℕ → ℕ → Bool
slots_free bitmap slot zero = true
slots_free bitmap slot (suc n) = not (bitmap slot) && slots_free bitmap (slot + 1) n

unfoldable pub is_create_pos_valid : (ℕ → Option DentryBlock) → List ℕ → DentryStorePos → ℕ → Bool
is_create_pos_valid blocks name create_pos_hint max_blk_off =
    if ltb max_blk_off create_pos_hint.blkno then false else elim (blocks create_pos_hint.blkno) [
      | none ↦ true
      | some block ↦
          slots_free block.dentry_bitmap create_pos_hint.slotno (get_dentry_slots (length name))
    ]
