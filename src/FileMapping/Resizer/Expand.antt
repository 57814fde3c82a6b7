-- ===== src/FileMapping/Resizer/Expand.antt =====
-- The expansion of a file (src/fs/file_utils.cc, `file_resizer::expand`).
pub mod Extensions
pub mod Ensures
pub mod Returns
use hscfs.Base.{
  ℕ, zero, suc, ◌+◌, ◌-◌, List, [], ◌∷◌, Bool, true, false, Option, some, none, ltb, leb, ◌==◌,
  ◌&&◌, not, if◌then◌else◌, put, nat_key, guard,
}
use hscfs.Base.Outcome.{
  Outcome, done, thrown, aborted, Error, expand_file_size_exceed_limit, step, ◌>>=◌,
}
use hscfs.Fs.{invalid_nid}
use hscfs.FileMapping.{max_blkno_limit, get_node_path}
use hscfs.FileMapping.Pointers.{Node, direct, indirect, get_next_nid, set_next_nid}
use hscfs.FileMapping.Resizer.{NodeBlock, FileNodes, size_to_block, set_node, get_node_entry}

-- A zeroed block: the last node of a path is read as a direct node, the others as indirect ones.
abbrev pub zeroed : ℕ → Node
zeroed below = if below == 0 then direct (λ i. 0) else indirect (λ i. 0)

-- A node of the file `ino`, at its place in the index tree.
abbrev pub is_at : NodeBlock → ℕ → ℕ → ℕ → Bool
is_at b ino nid noffset = (b.ino == ino) && (b.nid == nid) && (b.noffset == noffset)

abbrev pub tail : List ℕ → List ℕ
tail [] = []
tail (x ∷ xs) = xs

abbrev pub on_fs : {Fs A : Type 0} → FileNodes Fs → Outcome Fs A → Outcome (FileNodes Fs) A
on_fs s (done a fs1) = done a (record s { fs = fs1 })
on_fs s (thrown e fs1) = thrown e (record s { fs = fs1 })
on_fs s aborted = aborted

-- `super_manager::alloc_nid` on the rest of the file system: with `Meta` for it, `alloc_nid` is that of
-- Meta/Nat.antt, `λ ino s. alloc_nid read s ino false`.
module _ {Fs : Type 0} (alloc_nid : ℕ → Fs → Outcome Fs ℕ) where
  -- The child at the slot `o` of a node, which is created.
  unfoldable pub create_child :
      FileNodes Fs → ℕ → ℕ → NodeBlock → ℕ → ℕ → ℕ → ℕ → Outcome (FileNodes Fs) ℕ
  create_child s ino cur_nid cur level o noffset below =
      on_fs s (alloc_nid ino s.fs) >>= (λ (new_nid, s1).
        let nxt : NodeBlock = record {
          ino = ino;
          nid = new_nid;
          noffset = noffset;
          node = zeroed below;
        } in
        step (set_next_nid cur.node o level new_nid) (λ node1.
          done new_nid (set_node (set_node s1 new_nid nxt) cur_nid (record cur { node = node1 }))))

  -- The child that exists.
  unfoldable pub enter_child : FileNodes Fs → ℕ → ℕ → ℕ → ℕ → Outcome (FileNodes Fs) ℕ
  enter_child s ino cur_nid nxt_nid noffset =
      step (get_node_entry s nxt_nid cur_nid)
        (λ nxt. if is_at nxt ino nxt_nid noffset then done nxt_nid s else aborted)

  unfoldable pub next_node : FileNodes Fs → ℕ → ℕ → ℕ → ℕ → ℕ → ℕ → Outcome (FileNodes Fs) ℕ
  next_node s ino cur_nid level o noffset below = step (s.nodes cur_nid) (λ cur.
      step (get_next_nid cur.node o level) (λ nxt_nid.
        if nxt_nid == invalid_nid
        then create_child s ino cur_nid cur level o noffset below
        else enter_child s ino cur_nid nxt_nid noffset))

  -- The loop over the levels of a path: its slots, and the numbers of the nodes after the inode.
  unfoldable pub ensure_path :
      ℕ → FileNodes Fs → ℕ → ℕ → ℕ → List ℕ → List ℕ → Outcome (FileNodes Fs) Unit
  ensure_path zero s ino cur_nid level os ns = done tt s
  ensure_path (suc n) s ino cur_nid level [] ns = aborted
  ensure_path (suc n) s ino cur_nid level (o ∷ os) [] = aborted
  ensure_path (suc n) s ino cur_nid level (o ∷ os) (noffset ∷ ns) =
      next_node s ino cur_nid level o noffset n
      >>= (λ (nxt, s1). ensure_path n s1 ino nxt (level + 1) os ns)

  unfoldable pub ensure_block : FileNodes Fs → ℕ → ℕ → Outcome (FileNodes Fs) Unit
  ensure_block s ino blk =
      step (get_node_path blk)
        (λ path. ensure_path path.level s ino ino 0 path.offset (tail path.noffset))

  -- The loop over `n` blocks.
  unfoldable pub ensure_blocks : ℕ → FileNodes Fs → ℕ → ℕ → Outcome (FileNodes Fs) Unit
  ensure_blocks zero s ino blk = done tt s
  ensure_blocks (suc n) s ino blk =
      ensure_block s ino blk >>= (λ (u, s1). ensure_blocks n s1 ino (blk + 1))

  unfoldable pub expand : FileNodes Fs → ℕ → ℕ → Outcome (FileNodes Fs) Unit
  expand s ino tar_size = step (get_node_entry s ino invalid_nid) (λ b.
      if not ((b.ino == b.nid) && (b.noffset == 0))
      then aborted
      else if leb tar_size s.i_size
      then done tt s
      else if ltb max_blkno_limit (size_to_block tar_size)
      then thrown expand_file_size_exceed_limit s
      else (let start_blk = size_to_block s.i_size in
          ensure_blocks (size_to_block tar_size - start_blk) (record s { i_size = tar_size }) ino
            start_blk))
