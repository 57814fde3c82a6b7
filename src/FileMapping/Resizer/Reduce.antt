-- ===== src/FileMapping/Resizer/Reduce.antt =====
-- The reduction of a file (src/fs/file_utils.cc, `file_resizer::reduce`). The numbers of blocks stay below
-- 2 ^ 32: the last subtree ends at `max_blkno_limit`.
use hscfs.Base.{
  ℕ, zero, suc, ◌+◌, ◌-◌, ◌*◌, min, max, Bool, true, false, Option, some, none, ltb, leb, ◌==◌,
  ◌||◌, not, if◌then◌else◌, put, nat_key, guard, ◌>>=◌, ◌>>◌,
}
use hscfs.Fs.{invalid_nid, invalid_lpa}
use hscfs.FileMapping.{def_addrs_per_inode, def_addrs_per_block, nids_per_block}
use hscfs.FileMapping.Pointers.{inode, direct, indirect}
use hscfs.FileMapping.Resizer.{NodeBlock, FileNodes, size_to_block, set_node, get_node_entry}

abbrev pub single_node_blks : ℕ
single_node_blks = def_addrs_per_block

abbrev pub double_node_blks : ℕ
double_node_blks = nids_per_block * def_addrs_per_block

-- The common part of two closed ranges.
unfoldable pub intersect : ℕ → ℕ → ℕ → ℕ → Option (ℕ × ℕ)
intersect start1 end1 start2 end2 =
    if ltb end1 start2 || ltb end2 start1 then none else some (max start1 start2, min end1 end2)

-- `SIT_operator::invalidate_lpa`, and what happens to the id and the address of a deleted node once its
-- handle is gone.
module _ {Fs : Type 0} (invalidate_lpa : ℕ → Fs → Option Fs)
    (release_node : ℕ → Fs → Option Fs) where
  -- The loop over `n` direct pointers from the index `i` on.
  unfoldable pub free_addrs : (ℕ → ℕ) → ℕ → ℕ → Fs → Option ((ℕ → ℕ) × Fs)
  free_addrs addr i zero fs = some (addr, fs)
  free_addrs addr i (suc n) fs = do
    (addr1, fs1) ←
        if addr i == invalid_lpa
        then some (addr, fs)
        else (do fs1 ← invalidate_lpa (addr i) fs; some (put addr i invalid_lpa, fs1))
    free_addrs addr1 (i + 1) n fs1

  -- `handle.delete_node()`, when the handle is released.
  abbrev pub delete_node : FileNodes Fs → ℕ → Option (FileNodes Fs)
  delete_node s nid = do
    fs1 ← release_node nid s.fs
    some (record s { nodes = put s.nodes nid none; fs = fs1 })

  module _ (start_blk end_blk : ℕ) where
    unfoldable pub proc_direct_pointers_in_inode : FileNodes Fs → ℕ → Option (FileNodes Fs)
    proc_direct_pointers_in_inode s ino = do
      b ← s.nodes ino
      elim (intersect 0 (def_addrs_per_inode - 1) start_blk end_blk) [
        | none ↦ some s
        | some (first, last) ↦ elim b.node [
          | inode i_addr i_nid ↦ do
            (addr1, fs1) ← free_addrs i_addr first (last + 1 - first) s.fs
            some (set_node (record s { fs = fs1 }) ino (record b { node = inode addr1 i_nid }))
          | direct addr ↦ none
          | indirect nid ↦ none
        ]
      ]

    -- The result says whether the node is of no more use.
    unfoldable pub proc_single_node : FileNodes Fs → ℕ → ℕ → Option (Bool × FileNodes Fs)
    proc_single_node s nid manage_start = do
      b ← s.nodes nid
      elim (intersect start_blk end_blk manage_start (manage_start + single_node_blks - 1)) [
        | none ↦ some (false, s)
        | some (start_off, end_off) ↦ elim b.node [
          | direct addr ↦ do
            (addr1, fs1) ← free_addrs addr (start_off - manage_start) (end_off + 1 - start_off) s.fs
            some (
              leb start_blk manage_start,
              set_node (record s { fs = fs1 }) nid (record b { node = direct addr1 }),
            )
          | inode i_addr i_nid ↦ none
          | indirect nids ↦ none
        ]
      ]

    abbrev nid_of : NodeBlock → ℕ → Option ℕ
    nid_of b i = elim b.node [
      | inode i_addr i_nid ↦ none
      | direct addr ↦ none
      | indirect nids ↦ some (nids i)
    ]

    abbrev set_nid : NodeBlock → ℕ → ℕ → Option NodeBlock
    set_nid b i nid = elim b.node [
      | inode i_addr i_nid ↦ none
      | direct addr ↦ none
      | indirect nids ↦ some (record b { node = indirect (put nids i nid) })
    ]

    module _ (proc_child : FileNodes Fs → ℕ → ℕ → Option (Bool × FileNodes Fs)) (blks : ℕ) where
      -- One child whose blocks are in the range.
      unfoldable pub proc_entry : FileNodes Fs → ℕ → ℕ → ℕ → Option (FileNodes Fs)
      proc_entry s nid i manage_start = do
        b ← s.nodes nid
        child ← nid_of b i
        guard (not (child == invalid_nid))
        handle ← get_node_entry s child nid
        (invalid, s1) ← proc_child s child manage_start
        if invalid
            then (do
              s2 ← delete_node s1 child
              b1 ← s2.nodes nid
              b2 ← set_nid b1 i invalid_nid
              some (set_node s2 nid b2))
            else some s1

      -- The loops of `proc_double_node` and `proc_triple_node`, with `n` entries left. A child that ends
      -- before the range is skipped, and the start of the next one is not moved on then.
      unfoldable pub proc_entries : ℕ → FileNodes Fs → ℕ → ℕ → ℕ → Option (FileNodes Fs)
      proc_entries zero s nid i manage_start = some s
      proc_entries (suc n) s nid i manage_start = elim (ltb (manage_start + blks - 1) start_blk) [
        | true ↦ proc_entries n s nid (i + 1) manage_start
        | false ↦ elim (ltb end_blk manage_start) [
          | true ↦ do b ← s.nodes nid; child ← nid_of b i; guard (child == invalid_nid); some s
          | false ↦ do
            s1 ← proc_entry s nid i manage_start
            proc_entries n s1 nid (i + 1) (manage_start + blks)
        ]
      ]

      unfoldable pub proc_indirect_node : FileNodes Fs → ℕ → ℕ → Option (Bool × FileNodes Fs)
      proc_indirect_node s nid manage_start = do
        s1 ← proc_entries nids_per_block s nid 0 manage_start
        some (leb start_blk manage_start, s1)

    abbrev pub proc_double_node : FileNodes Fs → ℕ → ℕ → Option (Bool × FileNodes Fs)
    proc_double_node = proc_indirect_node proc_single_node single_node_blks

    abbrev pub proc_triple_node : FileNodes Fs → ℕ → ℕ → Option (Bool × FileNodes Fs)
    proc_triple_node = proc_indirect_node proc_double_node double_node_blks

    abbrev i_nid_of : NodeBlock → ℕ → Option ℕ
    i_nid_of b i = elim b.node [
      | inode i_addr i_nid ↦ some (i_nid i)
      | direct addr ↦ none
      | indirect nids ↦ none
    ]

    abbrev set_i_nid : NodeBlock → ℕ → ℕ → Option NodeBlock
    set_i_nid b i nid = elim b.node [
      | inode i_addr i_nid ↦ some (record b { node = inode i_addr (put i_nid i nid) })
      | direct addr ↦ none
      | indirect nids ↦ none
    ]

    module _ (proc_child : FileNodes Fs → ℕ → ℕ → Option (Bool × FileNodes Fs)) where
      unfoldable pub proc_slot : FileNodes Fs → ℕ → ℕ → ℕ → Option (FileNodes Fs)
      proc_slot s ino nid_idx cur_start = do
        b ← s.nodes ino
        child ← i_nid_of b nid_idx
        handle ← get_node_entry s child b.ino
        (invalid, s1) ← proc_child s child cur_start
        if invalid
            then (do
              b1 ← s1.nodes ino
              b2 ← set_i_nid b1 nid_idx invalid_nid
              delete_node (set_node s1 ino b2) child)
            else some s1

      -- The loops over the subtrees of the inode, with `n` of them left. Without a start of the next one
      -- the function has returned.
      unfoldable pub proc_slots :
          ℕ → ℕ → FileNodes Fs → ℕ → ℕ → ℕ → Option (Option ℕ × FileNodes Fs)
      proc_slots zero blks s ino nid_idx cur_start = some (some cur_start, s)
      proc_slots (suc n) blks s ino nid_idx cur_start =
          elim (ltb (cur_start + blks - 1) start_blk) [
            | true ↦ proc_slots n blks s ino (nid_idx + 1) cur_start
            | false ↦ elim (ltb end_blk cur_start) [
              | true ↦ some (none, s)
              | false ↦ do
                s1 ← proc_slot s ino nid_idx cur_start
                proc_slots n blks s1 ino (nid_idx + 1) (cur_start + blks)
            ]
          ]

    unfoldable pub free_blocks_in_range : FileNodes Fs → ℕ → Option (FileNodes Fs)
    free_blocks_in_range s ino = do
      s1 ← proc_direct_pointers_in_inode s ino
      (start2, s2) ← proc_slots proc_single_node 2 single_node_blks s1 ino 0 def_addrs_per_inode
      elim start2 [
        | none ↦ some s2
        | some cur2 ↦ do
          (start3, s3) ← proc_slots proc_double_node 2 double_node_blks s2 ino 2 cur2
          elim start3 [
            | none ↦ some s3
            | some cur3 ↦
                if ltb end_blk cur3 then some s3 else proc_slot proc_triple_node s3 ino 4 cur3
          ]
      ]

  -- `end_blk` is 2 ^ 32 - 1 for a file without blocks; its size cannot be reduced.
  unfoldable pub reduce : FileNodes Fs → ℕ → ℕ → Option (FileNodes Fs)
  reduce s ino tar_size = do
    b ← get_node_entry s ino invalid_nid
    guard (b.ino == b.nid)
    guard (b.noffset == 0)
    if leb s.i_size tar_size
        then some s
        else (let s1 = record s { i_size = tar_size } in
            let start_blk = size_to_block tar_size in
            let end_blk = size_to_block s.i_size - 1 in
            if ltb end_blk start_blk
            then some s1
            else free_blocks_in_range start_blk end_blk s1 ino)
