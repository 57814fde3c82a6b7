-- ===== src/FileMapping.antt =====
-- The index tree of a file (src/fs/file_utils.cc, inc/fs/fs.h): the path from the inode to the
-- node block that addresses a given block of the file.
pub mod Shape
pub mod Paths
pub mod Pointers
pub mod Resizer
pub mod Mapping
use hscfs.Base.{ℕ, ◌+◌, ◌-◌, ◌*◌, ◌/◌, ◌%◌, List, [], ◌∷◌, Option, none, some, ltb, if◌then◌else◌}

abbrev pub def_addrs_per_inode : ℕ
def_addrs_per_inode = 932

abbrev pub def_addrs_per_block : ℕ
def_addrs_per_block = 1020

abbrev pub nids_per_block : ℕ
nids_per_block = 1020

abbrev pub node_dir1_block : ℕ
node_dir1_block = def_addrs_per_inode + 1

abbrev pub node_dir2_block : ℕ
node_dir2_block = def_addrs_per_inode + 2

abbrev pub node_ind1_block : ℕ
node_ind1_block = def_addrs_per_inode + 3

abbrev pub node_ind2_block : ℕ
node_ind2_block = def_addrs_per_inode + 4

abbrev pub node_dind_block : ℕ
node_dind_block = def_addrs_per_inode + 5

-- `file_resizer::max_blkno_limit`: the number of blocks that an inode can address.
abbrev pub max_blkno_limit : ℕ
max_blkno_limit =
    def_addrs_per_inode
    + 2 * def_addrs_per_block
    + 2 * nids_per_block * def_addrs_per_block
    + nids_per_block * nids_per_block * def_addrs_per_block

-- The level that the function returns, and the entries that it writes to the two arrays.
pub record NodePath : Type 0 where
  pub level : ℕ
  pub offset : List ℕ
  pub noffset : List ℕ

abbrev indirect_blks : ℕ
indirect_blks = def_addrs_per_block * nids_per_block

abbrev dindirect_blks : ℕ
dindirect_blks = indirect_blks * nids_per_block

inode_path : ℕ → NodePath
inode_path block = record { level = 0; offset = block ∷ []; noffset = 0 ∷ [] }

direct_path : ℕ → ℕ → ℕ → NodePath
direct_path entry number block = record {
  level = 1;
  offset = entry ∷ block ∷ [];
  noffset = 0 ∷ number ∷ [];
}

indirect_path : ℕ → ℕ → ℕ → NodePath
indirect_path entry number block =
    let first = block / def_addrs_per_block in
    record {
      level = 2;
      offset = entry ∷ first ∷ block % def_addrs_per_block ∷ [];
      noffset = 0 ∷ number ∷ (number + 1 + first) ∷ [];
    }

dindirect_path : ℕ → NodePath
dindirect_path block =
    let first = block / indirect_blks in
    let second = (block / def_addrs_per_block) % nids_per_block in
    record {
      level = 3;
      offset = node_dind_block ∷ first ∷ second ∷ block % def_addrs_per_block ∷ [];
      noffset =
          0
          ∷ (5 + nids_per_block * 2)
          ∷ (6 + nids_per_block * 2 + first * (nids_per_block + 1))
          ∷ (7 + nids_per_block * 2 + first * (nids_per_block + 1) + second)
          ∷ [];
    }

-- `none` is the return of -1.
unfoldable pub get_node_path : ℕ → Option NodePath
unfolding inode_path direct_path indirect_path dindirect_path
get_node_path block =
    if ltb block def_addrs_per_inode
    then some (inode_path block)
    else let block1 = block - def_addrs_per_inode in
      if ltb block1 def_addrs_per_block
      then some (direct_path node_dir1_block 1 block1)
      else let block2 = block1 - def_addrs_per_block in
        if ltb block2 def_addrs_per_block
        then some (direct_path node_dir2_block 2 block2)
        else let block3 = block2 - def_addrs_per_block in
          if ltb block3 indirect_blks
          then some (indirect_path node_ind1_block 3 block3)
          else let block4 = block3 - indirect_blks in
            if ltb block4 indirect_blks
            then some (indirect_path node_ind2_block (4 + nids_per_block) block4)
            else let block5 = block4 - indirect_blks in
              if ltb block5 dindirect_blks then some (dindirect_path block5) else none
