-- ===== src/File/Truncation.antt =====
-- What a truncation leaves in the inode and in the page cache.
use hscfs.Base.{ℕ, ◌+◌, ◌-◌, ◌%◌, ◌^◌, ◌<◌, ◌≡◌, refl, true, Option, some, ltb, nat_key, arith}
use hscfs.Base.Outcome.{Outcome, thrown, expand_file_size_exceed_limit}
use hscfs.Fs.{invalid_nid}
use hscfs.FileMapping.Resizer.{NodeBlock, FileNodes, get_node_entry}
use hscfs.FileMapping.Resizer.Expand.{expand}
use hscfs.File.{File, size_to_block, resize, truncate}

-- The last page that is kept, as the code computes it.
abbrev pub last_page : ℕ → ℕ
last_page tar_size = (size_to_block tar_size + 2 ^ 64 - 1) % 2 ^ 64 % 2 ^ 32

module _ {Fs : Type 0} (alloc_nid : ℕ → Fs → Outcome Fs ℕ)
    (invalidate_lpa free_nid : ℕ → Fs → Option Fs) where
  -- A truncation to a larger size whose expansion throws changes the nodes as the expansion did, and leaves
  -- the file's size and its page cache.
  pub truncate-thrown :
      (f : File) (s s' : FileNodes Fs) (ino tar_size : ℕ) (b : NodeBlock)
      → get_node_entry s ino invalid_nid ≡ some b
      → s.i_size < tar_size
      → expand alloc_nid s ino tar_size ≡ thrown expand_file_size_exceed_limit s'
      → truncate alloc_nid invalidate_lpa free_nid f s ino tar_size
        ≡ thrown expand_file_size_exceed_limit (f, s')
  unfolding truncate resize
  truncate-thrown f s s' ino tar_size b inode larger expanded =
      let grows : ltb s.i_size tar_size ≡ true = ground (arith, larger) in
      rw (inode, truncate) (rw grows (rw expanded refl))
