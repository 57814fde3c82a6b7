-- ===== src/FileMapping/Pointers.antt =====
-- The pointers in the nodes of a file's index tree (src/fs/file_utils.cc, `file_mapping_util`). The
-- union `hscfs_node` is a data type: what is read of another member, or outside an array, is `none`.
use hscfs.Base.{
  ℕ, ◌-◌, ◌≡◌, ◌≢◌, Option, none, some, ltb, leb, ◌==◌, ◌&&◌, if◌then◌else◌, put, nat_key, arith,
}
use hscfs.FileMapping.{
  def_addrs_per_inode, def_addrs_per_block, nids_per_block, node_dir1_block, node_dind_block,
}

pub data Node : Type 0 where
  inode : (ℕ → ℕ) → (ℕ → ℕ) → Node
  direct : (ℕ → ℕ) → Node
  indirect : (ℕ → ℕ) → Node

abbrev in_nids : ℕ → ℕ → Option ℕ
in_nids offset result =
    if leb node_dir1_block offset && leb offset node_dind_block then some result else none

unfoldable pub get_next_nid : Node → ℕ → ℕ → Option ℕ
get_next_nid (inode i_addr i_nid) offset cur_level =
    if cur_level == 0 then in_nids offset (i_nid (offset - node_dir1_block)) else none
get_next_nid (indirect nid) offset cur_level =
    if cur_level == 0 then none else (if ltb offset nids_per_block then some (nid offset) else none)
get_next_nid (direct addr) offset cur_level = none

unfoldable pub set_next_nid : Node → ℕ → ℕ → ℕ → Option Node
set_next_nid (inode i_addr i_nid) offset cur_level nxt_nid =
    if cur_level == 0
    then (if leb node_dir1_block offset && leb offset node_dind_block
        then some (inode i_addr (put i_nid (offset - node_dir1_block) nxt_nid))
        else none)
    else none
set_next_nid (indirect nid) offset cur_level nxt_nid =
    if cur_level == 0
    then none
    else (if ltb offset nids_per_block then some (indirect (put nid offset nxt_nid)) else none)
set_next_nid (direct addr) offset cur_level nxt_nid = none

-- The assertions guard the arrays' ends.
unfoldable pub get_lpa : Node → ℕ → ℕ → Option ℕ
get_lpa (inode i_addr i_nid) offset level =
    if level == 0
    then (if ltb offset def_addrs_per_inode then some (i_addr offset) else none)
    else none
get_lpa (direct addr) offset level =
    if level == 0
    then none
    else (if ltb offset def_addrs_per_block then some (addr offset) else none)
get_lpa (indirect nid) offset level = none

unfoldable pub set_lpa : Node → ℕ → ℕ → ℕ → Option Node
set_lpa (inode i_addr i_nid) offset level lpa =
    if level == 0
    then (if ltb offset def_addrs_per_inode
        then some (inode (put i_addr offset lpa) i_nid)
        else none)
    else none
set_lpa (direct addr) offset level lpa =
    if level == 0
    then none
    else (if ltb offset def_addrs_per_block then some (direct (put addr offset lpa)) else none)
set_lpa (indirect nid) offset level lpa = none

-- A child pointer that was set is read back, and every other pointer of the node stays, those to
-- data blocks included.
pub set_next_nid-get_next_nid :
    (node : Node) {node' : Node} (offset level nid : ℕ)
    → set_next_nid node offset level nid ≡ some node'
    → (get_next_nid node' offset level ≡ some nid)
      × ((k : ℕ) → k ≢ offset → get_next_nid node' k level ≡ get_next_nid node k level)
      × ((k : ℕ) → get_lpa node' k level ≡ get_lpa node k level)
unfolding set_next_nid get_next_nid get_lpa
set_next_nid-get_next_nid (inode a n) offset level nid h =
    (ground arith, λ k ne. ground arith, λ k. ground arith)
set_next_nid-get_next_nid (indirect n) offset level nid h =
    (ground arith, λ k ne. ground arith, λ k. ground arith)
set_next_nid-get_next_nid (direct a) offset level nid h = absurd (ground arith)

-- The address of a data block that was set is read back, and every other pointer of the node stays.
pub set_lpa-get_lpa :
    (node : Node) {node' : Node} (offset level lpa : ℕ)
    → set_lpa node offset level lpa ≡ some node'
    → (get_lpa node' offset level ≡ some lpa)
      × ((k : ℕ) → k ≢ offset → get_lpa node' k level ≡ get_lpa node k level)
      × ((k : ℕ) → get_next_nid node' k level ≡ get_next_nid node k level)
unfolding set_lpa get_next_nid get_lpa
set_lpa-get_lpa (inode a n) offset level lpa h =
    (ground arith, λ k ne. ground arith, λ k. ground arith)
set_lpa-get_lpa (direct a) offset level lpa h =
    (ground arith, λ k ne. ground arith, λ k. ground arith)
set_lpa-get_lpa (indirect n) offset level lpa h = absurd (ground arith)
