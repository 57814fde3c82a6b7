-- ===== src/FileMapping/Resizer.antt =====
-- The node blocks of a file as the resizer uses them (src/fs/file_utils.cc, `file_resizer`;
-- src/cache/node_block_cache.cc, `node_cache_helper`). A node that is read from the SSD and one that is
-- cached are the same here. `none` is a failed assertion, an exception of what a parameter stands for, or
-- a node that does not exist.
pub mod Reduction
pub mod Reduce
pub mod Frees
pub mod Expand
use hscfs.Base.{
  ℕ, ◌+◌, ◌/◌, ◌≡◌, Option, some, none, ◌==◌, ◌&&◌, ◌||◌, not, if◌then◌else◌, put, nat_key, guard,
  ◌>>=◌, ◌>>◌,
}
use hscfs.Fs.{invalid_nid}
use hscfs.FileMapping.Pointers.{Node}

pub record NodeBlock : Type 0 where
  pub ino : ℕ
  pub nid : ℕ
  pub noffset : ℕ
  pub node : Node

-- One file: the size in its inode, its node blocks, and the rest of the file system.
pub record FileNodes (Fs : Type 0) : Type 0 where
  pub i_size : ℕ
  pub nodes : ℕ → Option NodeBlock
  pub fs : Fs

-- `SIZE_TO_BLOCK`: the number of blocks of a size, of at most 2 ^ 64 - 4096 bytes, so that the sum does not
-- wrap around.
abbrev pub size_to_block : ℕ → ℕ
size_to_block size = (size + 4095) / 4096

abbrev pub set_node : {Fs : Type 0} → FileNodes Fs → ℕ → NodeBlock → FileNodes Fs
set_node s nid b = record s { nodes = put s.nodes nid (some b) }

unfoldable pub get_node_entry : {Fs : Type 0} → FileNodes Fs → ℕ → ℕ → Option NodeBlock
get_node_entry s nid parent_nid = do
  b ← s.nodes nid
  guard (b.nid == nid)
  guard (not (parent_nid == invalid_nid) || (b.ino == nid))
  some b
