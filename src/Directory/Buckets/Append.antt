-- ===== src/Directory/Buckets/Append.antt =====
-- A new level of a directory.
use hscfs.Base.{
  ℕ, suc, ◌+◌, ◌*◌, ◌%◌, ◌^◌, ◌≡◌, ◌≢◌, ◌≤◌, ◌<◌, ◌∙◌, refl, sym, ap, subst, Bool, true, false, ltb,
  leb, ◌==◌, ◌&&◌, succ32, arith, Bool-cases, inl, inr, some,
}
use hscfs.Base.Outcome.{Outcome, done, thrown, aborted, expand_file_size_exceed_limit, step-done}
use hscfs.Fs.{invalid_nid}
use hscfs.FileMapping.{max_blkno_limit}
use hscfs.FileMapping.Resizer.{NodeBlock, FileNodes, size_to_block, get_node_entry}
use hscfs.FileMapping.Resizer.Expand.{expand}
use hscfs.FileMapping.Resizer.Expand.Ensures.{Consistent, expand-HasPaths}
use hscfs.FileMapping.Resizer.Expand.Extensions.{HasPathOf}
use hscfs.Directory.Buckets.{DirInode, with_file, append_hash_level}
use hscfs.Directory.Buckets.Sizes.{
  level_blocks, all_blocks, IsSized, depth-lt, new_level-lt, level_blocks-pos,
}

expand-within :
    {Fs : Type 0} (alloc_nid : ℕ → Fs → Outcome Fs ℕ) (s : FileNodes Fs) {s' : FileNodes Fs}
    (ino tar_size : ℕ)
    → s.i_size < tar_size
    → expand alloc_nid s ino tar_size ≡ done tt s'
    → size_to_block tar_size ≤ max_blkno_limit
unfolding expand
expand-within alloc_nid s {s'} ino tar_size grows h =
    let (b, found, h1) = step-done (get_node_entry s ino invalid_nid) _ h in
    let larger : leb tar_size s.i_size ≡ false = ground (arith, grows) in
    elim (Bool-cases ((b.ino == b.nid) && (b.noffset == 0))) [
      | inr misplaced ↦ absurd (ground (arith, h1, misplaced))
      | inl placed ↦ elim (Bool-cases (ltb max_blkno_limit (size_to_block tar_size))) [
        | inl exceeds ↦ absurd (let h2 = rw (placed, larger) at h1 in ground (arith, h2, exceeds))
        | inr fits ↦ ground (arith, fits)
      ]
    ]

-- The size that the file is expanded to.
target_size :
    {Fs : Type 0} (s : DirInode Fs)
    → IsSized s
    → s.i_dir_level < 256
    → (size_to_block s.file.i_size + level_blocks s.i_dir_level (succ32 s.i_current_depth) % 2 ^ 32)
        * 4096
      ≡ all_blocks s.i_dir_level (suc (suc s.i_current_depth)) * 4096
target_size s sized byte =
    let small = depth-lt s sized byte in
    let next : succ32 s.i_current_depth ≡ suc s.i_current_depth = omega (arith, small) in
    let new = new_level-lt s sized byte in
    let size = sized.size in rw next (omega (arith, new, size))

module _ {Fs : Type 0} (alloc_nid : ℕ → Fs → Outcome Fs ℕ) where
  with_file-done :
      (s : DirInode Fs) (m : Outcome (FileNodes Fs) Unit) {s' : DirInode Fs}
      → with_file alloc_nid s m ≡ done tt s'
      → (f : FileNodes Fs) × (m ≡ done tt f) × (record s { file = f } ≡ s')
  with_file-done s (done tt f) h = (f, refl, cc)
  with_file-done s (thrown e f) h = absurd (cc)
  with_file-done s aborted h = absurd (cc)

  -- A new level that does not fit the file's limit: the expansion throws, the file stays as it is, and the
  -- depth has been counted up, so that the directory has a level without blocks.
  pub append_hash_level-thrown :
      (s : DirInode Fs) (ino : ℕ) {b : NodeBlock}
      → IsSized s
      → s.i_dir_level < 256
      → max_blkno_limit < all_blocks s.i_dir_level (suc (suc s.i_current_depth))
      → get_node_entry s.file ino invalid_nid ≡ some b
      → b.ino ≡ b.nid
      → b.noffset ≡ 0
      → (append_hash_level alloc_nid s ino
          ≡ thrown expand_file_size_exceed_limit
              (record s { i_current_depth = suc s.i_current_depth }))
        × (IsSized (record s { i_current_depth = suc s.i_current_depth }) → ⊥)
  unfolding append_hash_level expand
  append_hash_level-thrown s ino {b} sized byte exceeds found same top =
      let limit = sized.limit in
      let small = depth-lt s sized byte in
      let next : succ32 s.i_current_depth ≡ suc s.i_current_depth = omega (arith, small) in
      let target = target_size s sized byte in
      let placed : ((b.ino == b.nid) && (b.noffset == 0)) ≡ true = ground (arith, same, top) in
      let size = sized.size in
      let larger : leb (all_blocks s.i_dir_level (suc (suc s.i_current_depth)) * 4096) s.file.i_size
          ≡ false =
        ground (arith, exceeds, limit, size) in
      let big : ltb max_blkno_limit
            (size_to_block (all_blocks s.i_dir_level (suc (suc s.i_current_depth)) * 4096))
          ≡ true =
        ground (arith, exceeds) in
      (
        rw target (rw (found, placed, larger, big) (rw next refl)),
        λ still. (let bound = still.limit in omega (arith, bound, exceeds)),
      )

  module _ (in_use : Fs → ℕ → Bool) (IsReady : ℕ → Fs → Type 0)
      (alloc_nid-in_use : (ino : ℕ) (fs : Fs) (nid : ℕ) (fs' : Fs)
        → IsReady ino fs
        → alloc_nid ino fs ≡ done nid fs'
        → (nid ≢ invalid_nid)
          × (in_use fs nid ≡ false)
          × (in_use fs' nid ≡ true)
          × ((k : ℕ) → in_use fs k ≡ true → in_use fs' k ≡ true)
          × IsReady ino fs') where
    -- A new level that can be had, of a directory that has the size of its levels and whose nodes' ids are in
    -- use, in a state that is ready to give out ids to it: the directory is one level deeper, its file has the blocks of all levels,
    -- and the new blocks have all node blocks of their paths.
    pub append_hash_level-IsSized :
        (s s' : DirInode Fs) (ino : ℕ)
        → Consistent alloc_nid in_use IsReady alloc_nid-in_use ino s.file
        → IsSized s
        → s.i_dir_level < 256
        → append_hash_level alloc_nid s ino ≡ done tt s'
        → (s'.i_current_depth ≡ suc s.i_current_depth)
          × (s'.i_dir_level ≡ s.i_dir_level)
          × IsSized s'
          × ((blk : ℕ)
              → all_blocks s.i_dir_level (suc s.i_current_depth) ≤ blk
              → blk < all_blocks s.i_dir_level (suc (suc s.i_current_depth))
              → HasPathOf s'.file ino blk)
    unfolding append_hash_level
    append_hash_level-IsSized s s' ino consistent sized byte h =
        let small = depth-lt s sized byte in
        let next : succ32 s.i_current_depth ≡ suc s.i_current_depth = omega (arith, small) in
        let (f, ran, e) =
          with_file-done (record s { i_current_depth = succ32 s.i_current_depth })
            (expand alloc_nid s.file ino (
              (size_to_block s.file.i_size
                + level_blocks s.i_dir_level (succ32 s.i_current_depth) % 2 ^ 32)
              * 4096))
            h in
        let ran' : expand alloc_nid s.file ino
              (all_blocks s.i_dir_level (suc (suc s.i_current_depth)) * 4096)
            ≡ done tt f =
          subst (λ t. expand alloc_nid s.file ino t ≡ done tt f) (target_size s sized byte) ran in
        let size = sized.size in
        let more = level_blocks-pos s.i_dir_level (suc s.i_current_depth) in
        let grows : s.file.i_size < all_blocks s.i_dir_level (suc (suc s.i_current_depth)) * 4096 =
          omega (arith, size, more) in
        let (size', paths, stays) =
          expand-HasPaths alloc_nid in_use IsReady alloc_nid-in_use s.file f ino
            (all_blocks s.i_dir_level (suc (suc s.i_current_depth)) * 4096) consistent grows ran' in
        let fits =
          expand-within alloc_nid s.file ino
            (all_blocks s.i_dir_level (suc (suc s.i_current_depth)) * 4096) grows ran' in
        let e' : record s { i_current_depth = suc s.i_current_depth; file = f } ≡ s' =
          ap (λ k. record s { i_current_depth = k; file = f }) (sym next) ∙ e in
        subst
          (λ t.
            (t.i_current_depth ≡ suc s.i_current_depth)
            × (t.i_dir_level ≡ s.i_dir_level)
            × IsSized t
            × ((blk : ℕ)
                → all_blocks s.i_dir_level (suc s.i_current_depth) ≤ blk
                → blk < all_blocks s.i_dir_level (suc (suc s.i_current_depth))
                → HasPathOf t.file ino blk))
          e'
          (
            refl,
            refl,
            record { size = size'; limit = omega (arith, fits) },
            λ blk lo hi. paths blk (omega (arith, lo, size)) (omega (arith, hi)),
          )
