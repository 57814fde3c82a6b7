-- ===== src/Directory/Buckets.antt =====
-- The hash tables of a directory (src/fs/directory.cc): level after level, each a row of buckets of two or
-- four blocks.
pub mod Sizes
pub mod Append
use hscfs.Base.{
  ℕ, zero, suc, ◌+◌, ◌-◌, ◌*◌, ◌/◌, ◌%◌, ◌^◌, Bool, true, false, ltb, if◌then◌else◌, succ32,
}
use hscfs.Base.Outcome.{Outcome, done, thrown, aborted}
use hscfs.FileMapping.Resizer.{FileNodes, size_to_block}
use hscfs.FileMapping.Resizer.Expand.{expand}

-- MAX_DIR_HASH_DEPTH / 2
abbrev pub half_depth : ℕ
half_depth = 63 / 2

abbrev pub max_dir_buckets : ℕ
max_dir_buckets = 2 ^ (half_depth - 1)

unfoldable pub bucket_num : ℕ → ℕ → ℕ
bucket_num level dir_level =
    let n = (level + dir_level) % 2 ^ 32 in if ltb n half_depth then 2 ^ n else max_dir_buckets

unfoldable pub bucket_block_num : ℕ → ℕ
bucket_block_num level = if ltb level half_depth then 2 else 4

-- The loop of `bucket_start_block_index` over the levels before `level`.
unfoldable pub blocks_before : ℕ → ℕ → ℕ
blocks_before dir_level zero = 0
blocks_before dir_level (suc level) =
    (blocks_before dir_level level + bucket_num level dir_level * bucket_block_num level) % 2 ^ 32

unfoldable pub bucket_start_block_index : ℕ → ℕ → ℕ → ℕ
bucket_start_block_index level dir_level bucket_idx =
    (blocks_before dir_level level + bucket_idx * bucket_block_num level) % 2 ^ 32

-- The fields of the inode of a directory, and its file.
pub record DirInode (Fs : Type 0) : Type 0 where
  pub i_current_depth : ℕ
  pub i_dir_level : ℕ
  pub file : FileNodes Fs

module _ {Fs : Type 0} (alloc_nid : ℕ → Fs → Outcome Fs ℕ) where
  abbrev with_file : DirInode Fs → Outcome (FileNodes Fs) Unit → Outcome (DirInode Fs) Unit
  with_file s (done u f) = done u (record s { file = f })
  with_file s (thrown e f) = thrown e (record s { file = f })
  with_file s aborted = aborted

  -- The depth is counted up before the file is expanded.
  unfoldable pub append_hash_level : DirInode Fs → ℕ → Outcome (DirInode Fs) Unit
  append_hash_level s ino =
      let depth = succ32 s.i_current_depth in
      let blknum_need_expand = (bucket_num depth s.i_dir_level * bucket_block_num depth) % 2 ^ 32 in
      let size_after_expand = (size_to_block s.file.i_size + blknum_need_expand) * 4096 in
      with_file (record s { i_current_depth = depth })
        (expand alloc_nid s.file ino size_after_expand)
