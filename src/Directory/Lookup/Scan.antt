-- ===== src/Directory/Lookup/Scan.antt =====
-- The search over levels and buckets as one over a row of blocks.
use hscfs.Base.{
  ℕ, zero, suc, ◌+◌, ◌%◌, ◌≡◌, ◌≤◌, ◌<◌, ◌∙◌, refl, List, [], ◌∷◌, ◌++◌, true, false, not, Option,
  some, leb, ◌==◌, if◌then◌else◌, ◌>>=◌, arith, Bool-cases, Option-cases, inl, inr,
}
use native.Mathlib.Nat.{mod-lt}
use hscfs.Fs.{invalid_nid}
use hscfs.FileMapping.Resizer.{size_to_block}
use hscfs.Directory.{DentryBlock}
use hscfs.Directory.Buckets.{bucket_num, bucket_block_num, bucket_start_block_index}
use hscfs.Directory.Buckets.Sizes.{IsSized, bucket_start_block_index-within, bucket_num-pos}
use hscfs.Directory.Lookup.{
  DentryInfo, Directory, find_dentry_in_block, first_pos, lookup_blocks, lookup_levels,
}

abbrev pub scan : (ℕ → Option DentryBlock) → List ℕ → ℕ → List ℕ → DentryInfo → Option DentryInfo
scan blocks name name_hash [] target_info = some target_info
scan blocks name name_hash (blk ∷ blks) target_info = do
  cur ← find_dentry_in_block blocks blk name name_hash
  let rest = scan blocks name name_hash blks (first_pos target_info cur)
  if not (cur.ino == invalid_nid) then some cur else rest

abbrev pub range : ℕ → ℕ → List ℕ
range blk zero = []
range blk (suc n) = blk ∷ range (blk + 1) n

-- The blocks of a name's bucket of a level, and those of `n` levels.
abbrev pub bucket : ℕ → ℕ → ℕ → List ℕ
bucket dir_level level name_hash =
    range (bucket_start_block_index level dir_level (name_hash % bucket_num level dir_level))
      (bucket_block_num level)

abbrev pub candidates : ℕ → ℕ → ℕ → ℕ → List ℕ
candidates dir_level zero level name_hash = []
candidates dir_level (suc n) level name_hash =
    bucket dir_level level name_hash ++ candidates dir_level n (level + 1) name_hash

module _ (blocks : ℕ → Option DentryBlock) (name : List ℕ) (name_hash : ℕ) where
  lookup_blocks-scan :
      (n blkno : ℕ) (info : DentryInfo)
      → lookup_blocks n blocks blkno name name_hash info
        ≡ scan blocks name name_hash (range blkno n) info
  unfolding lookup_blocks
  lookup_blocks-scan zero blkno info = refl
  lookup_blocks-scan (suc n) blkno info =
      elim (Option-cases (find_dentry_in_block blocks blkno name name_hash)) [
        | inl fails ↦ rw fails refl
        | inr (cur, ok) ↦ rw (ok, lookup_blocks-scan n (blkno + 1) (first_pos info cur)) refl
      ]

  -- A row of blocks after another one is searched if the first one has no entry.
  pub scan-++ :
      (xs ys : List ℕ) (info : DentryInfo)
      → info.ino ≡ invalid_nid
      → (do
        a ← scan blocks name name_hash xs info
        if not (a.ino == invalid_nid) then some a else scan blocks name name_hash ys a)
        ≡ scan blocks name name_hash (xs ++ ys) info
  scan-++ [] ys info none_yet =
      let test : not (info.ino == 0) ≡ false = ground (arith, none_yet) in rw test refl
  scan-++ (x ∷ xs) ys info none_yet =
      elim (Option-cases (find_dentry_in_block blocks x name name_hash)) [
        | inl fails ↦ rw fails refl
        | inr (cur, ok) ↦ elim (Bool-cases (not (cur.ino == 0))) [
          | inl hit ↦ rw ok (rw hit (rw hit refl))
          | inr miss ↦
              let still : (first_pos info cur).ino ≡ 0 = ground (arith, none_yet) in
              rw (ok, miss) (scan-++ xs ys (first_pos info cur) still)
        ]
      ]

module _ {Fs : Type 0} (dir : Directory Fs) (name : List ℕ) (name_hash : ℕ)
    (sized : IsSized dir.inode) where
  pub lookup_levels-scan :
      (n level : ℕ) (info : DentryInfo)
      → n + level ≤ suc dir.inode.i_current_depth
      → info.ino ≡ invalid_nid
      → lookup_levels n dir level name name_hash info
        ≡ scan dir.blocks name name_hash (candidates dir.inode.i_dir_level n level name_hash) info
  unfolding lookup_levels
  lookup_levels-scan zero level info inside none_yet = refl
  lookup_levels-scan (suc n) level info inside none_yet =
      let i = dir.inode in
      let buckets = bucket_num-pos level i.i_dir_level in
      let idx : name_hash % bucket_num level i.i_dir_level < bucket_num level i.i_dir_level =
        mod-lt name_hash buckets in
      let fits =
        (bucket_start_block_index-within i level (name_hash % bucket_num level i.i_dir_level) sized
          (omega (arith, inside)) idx).2 in
      let test : leb
            (bucket_start_block_index level i.i_dir_level
                (name_hash % bucket_num level i.i_dir_level)
              + bucket_block_num level)
            (size_to_block i.file.i_size)
          ≡ true =
        ground (arith, fits) in
      let one =
        lookup_blocks-scan dir.blocks name name_hash (bucket_block_num level)
          (bucket_start_block_index level i.i_dir_level
            (name_hash % bucket_num level i.i_dir_level))
          info in
      let row = bucket i.i_dir_level level name_hash in
      let blks = dir.blocks in
      let after : (do
        a ← scan blks name name_hash row info
        if not (a.ino == invalid_nid)
            then some a
            else lookup_levels n dir (level + 1) name name_hash a)
          ≡ (do
            a ← scan blks name name_hash row info
            if not (a.ino == invalid_nid)
                then some a
                else scan blks name name_hash (candidates i.i_dir_level n (level + 1) name_hash)
                    a) =
        elim (Option-cases (scan blks name name_hash row info)) [
          | inl fails ↦ rw fails refl
          | inr (a, ok) ↦ elim (Bool-cases (not (a.ino == invalid_nid))) [
            | inl hit ↦ rw ok (rw hit refl)
            | inr miss ↦ rw ok (
                rw miss (
                  lookup_levels-scan n (level + 1) a (omega (arith, inside))
                    (ground (arith, miss))))
          ]
        ] in
      rw (test, one)
        (after
          ∙ scan-++ dir.blocks name name_hash (bucket i.i_dir_level level name_hash)
              (candidates i.i_dir_level n (level + 1) name_hash) info none_yet)
