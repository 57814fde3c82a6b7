-- ===== src/Directory/Lookup/Create/Succeeds.antt =====
-- A place for an entry is found, if need be in a new level.
use hscfs.Base.{
  ℕ, suc, ◌+◌, ◌%◌, ◌≡◌, ◌≢◌, ◌≤◌, ◌<◌, ◌⊎◌, ◌∙◌, refl, sym, subst, List, Bool, true, false, Option,
  none, some, ◌==◌, length, arith, some_inj, inl, inr,
}
use hscfs.Base.Outcome.{Outcome, done}
use native.Mathlib.Nat.{mod-lt}
use hscfs.Fs.{invalid_nid}
use hscfs.FileMapping.Resizer.{size_to_block}
use hscfs.FileMapping.Resizer.Expand.Ensures.{Consistent}
use hscfs.Directory.{DentryBlock}
use hscfs.Directory.Layout.{Named}
use hscfs.Directory.Hash.{hscfs_dentry_hash}
use hscfs.Directory.Buckets.{
  bucket_num, bucket_block_num, bucket_start_block_index, DirInode, append_hash_level,
}
use hscfs.Directory.Buckets.Sizes.{
  all_blocks, IsSized, bucket_start_block_index-within, bucket_num-pos,
}
use hscfs.Directory.Buckets.Append.{append_hash_level-IsSized}
use hscfs.Directory.Lookup.{DentryStorePos, DentryInfo, Directory, lookup}
use hscfs.Directory.Lookup.Scan.{bucket, candidates}
use hscfs.Directory.Lookup.Block.{
  Among, IsReadable, hole, Holds, HasRoom, NoRoom, Room, nowhere, room_at, Answer, found, not_found,
}
use hscfs.Directory.Lookup.Answers.{lookup-Answer}
use hscfs.Directory.Lookup.Create.{lookup_pos, search_create_pos}
use hscfs.Directory.Lookup.Levels.{Among-range, Among-candidates, start, first_of_last}

lookup_pos-eq :
    {Fs : Type 0} (dir : Directory Fs) (name : List ℕ) (info : DentryInfo)
    → lookup dir name ≡ some info
    → info.ino ≡ invalid_nid
    → lookup_pos dir name ≡ some info.store_pos
unfolding lookup_pos
lookup_pos-eq dir name info ran ino =
    let test : (info.ino == invalid_nid) ≡ true = ground (arith, ino) in
    rw (lookup_pos, ran) (rw test refl)

-- The search for the place, when the name is not there.
lookup_pos-Room :
    {Fs : Type 0} (dir : Directory Fs) (name : List ℕ) (name_hash : ℕ)
    → 0 < length name
    → IsSized dir.inode
    → hscfs_dentry_hash name ≡ some name_hash
    → ((blk : ℕ)
        → Among blk (candidates dir.inode.i_dir_level (suc dir.inode.i_current_depth) 0 name_hash)
        → IsReadable dir.blocks name name_hash blk)
    → ((blk slot : ℕ) (e : Named)
        → Among blk (candidates dir.inode.i_dir_level (suc dir.inode.i_current_depth) 0 name_hash)
        → Holds dir.blocks name name_hash blk slot e
        → ⊥)
    → (pos : Option DentryStorePos) × (lookup_pos dir name ≡ some pos)
      × Room dir.blocks name name_hash none
          (candidates dir.inode.i_dir_level (suc dir.inode.i_current_depth) 0 name_hash)
          pos
lookup_pos-Room dir name name_hash some_name sized hashed readable absent =
    let (h, info, hashed', ran, answer) = lookup-Answer dir name some_name sized (λ h e.
      subst
        (λ k.
          (blk : ℕ)
          → Among blk (candidates dir.inode.i_dir_level (suc dir.inode.i_current_depth) 0 k)
          → IsReadable dir.blocks name k blk)
        (some_inj (sym hashed ∙ e)) readable) in
    let answer' =
      subst
        (λ k.
          Answer dir.blocks name k none
            (candidates dir.inode.i_dir_level (suc dir.inode.i_current_depth) 0 k) info)
        (some_inj (sym hashed' ∙ hashed)) answer in
    elim answer' [
      | found blk slot e among holds i t v p ↦ absurd (absent blk slot e among holds)
      | not_found ino lacks room ↦ (info.store_pos, lookup_pos-eq dir name info ran ino, room)
    ]

Holds-hole :
    {blocks : ℕ → Option DentryBlock} {name : List ℕ} {name_hash blk slot : ℕ} {e : Named}
    → Holds blocks name name_hash blk slot e
    → blocks blk ≢ none
Holds-hole holds none_yet = let cached = holds.cached in ground (arith, cached, none_yet)

NoRoom-hole :
    {blocks : ℕ → Option DentryBlock} {name : List ℕ} {name_hash blk : ℕ}
    → NoRoom blocks name name_hash blk
    → blocks blk ≢ none
NoRoom-hole full none_yet = let cached = full.cached in ground (arith, cached, none_yet)

Room-cases :
    {blocks : ℕ → Option DentryBlock} {name : List ℕ} {name_hash : ℕ} {blks : List ℕ}
    {pos : Option DentryStorePos}
    → Room blocks name name_hash none blks pos
    → ((pos ≡ none) × ((blk : ℕ) → Among blk blks → NoRoom blocks name name_hash blk))
      ⊎ ((p : DentryStorePos) × (pos ≡ some p) × HasRoom blocks name name_hash p.blkno p.slotno)
Room-cases (nowhere full) = inl (refl, full)
Room-cases (room_at {blk = blk} {slot = slot} among room) =
    inr (record { blkno = blk; slotno = slot }, refl, room)

-- What is among the candidates of one more level is behind the end of the file, or was among those before.
module _ {Fs : Type 0} (i i' : DirInode Fs) (name_hash : ℕ) (sized : IsSized i)
    (sized' : IsSized i') (deeper : i'.i_current_depth ≡ suc i.i_current_depth)
    (same : i'.i_dir_level ≡ i.i_dir_level) where
  last_start : size_to_block i.file.i_size ≤ start i.i_dir_level name_hash (suc i.i_current_depth)
  last_start =
      let d = i.i_dir_level in
      let level = suc i.i_current_depth in
      let within =
        subst
          (λ k.
            (idx : ℕ)
            → idx < bucket_num level k
            → (all_blocks k level ≤ bucket_start_block_index level k idx))
          same
          (λ idx h.
            (bucket_start_block_index-within i' level idx sized' (omega (arith, deeper)) h).0) in
      let size = sized.size in
      let lo =
        within (name_hash % bucket_num level d) (mod-lt name_hash (bucket_num-pos level d)) in
      omega (arith, size, lo)

  Among-deeper :
      (blk : ℕ)
      → Among blk (candidates i'.i_dir_level (suc i'.i_current_depth) 0 name_hash)
      → Among blk (candidates i.i_dir_level (suc i.i_current_depth) 0 name_hash)
        ⊎ (size_to_block i.file.i_size ≤ blk)
  Among-deeper blk h =
      let level = suc i.i_current_depth in
      let h' : Among blk (candidates i.i_dir_level (suc level) 0 name_hash) =
        subst (λ k. Among blk (candidates k (suc level) 0 name_hash)) same
          (subst (λ n. Among blk (candidates i'.i_dir_level (suc n) 0 name_hash)) deeper h) in
      elim (Among-candidates i.i_dir_level name_hash blk level 0 h') [
        | inl before ↦ inl before
        | inr new ↦
            let in_bucket =
              subst (λ k. Among blk (bucket i.i_dir_level k name_hash)) {y = level} (omega arith)
                new in
            let lo =
              Among-range blk (start i.i_dir_level name_hash level) (bucket_block_num level)
                in_bucket in
            inr (omega (arith, lo, last_start))
      ]

  Among-last :
      Among
        (start i.i_dir_level name_hash (suc i.i_current_depth))
        (candidates i'.i_dir_level (suc i'.i_current_depth) 0 name_hash)
  Among-last =
      let level = suc i.i_current_depth in
      let e : 0 + level ≡ level = omega arith in
      let here : Among (start i.i_dir_level name_hash level)
          (candidates i.i_dir_level (suc level) 0 name_hash) =
        subst
          (λ k.
            Among (start i.i_dir_level name_hash k)
              (candidates i.i_dir_level (suc level) 0 name_hash))
          e (first_of_last i.i_dir_level name_hash level 0) in
      subst
        (λ k.
          Among (start i.i_dir_level name_hash level)
            (candidates k (suc i'.i_current_depth) 0 name_hash))
        (sym same)
        (subst
          (λ n.
            Among (start i.i_dir_level name_hash level)
              (candidates i.i_dir_level (suc n) 0 name_hash))
          (sym deeper) here)

module _ {Fs : Type 0} (alloc_nid : ℕ → Fs → Outcome Fs ℕ) (in_use : Fs → ℕ → Bool)
    (IsReady : ℕ → Fs → Type 0)
    (alloc_nid-in_use : (ino : ℕ) (fs : Fs) (nid : ℕ) (fs' : Fs)
      → IsReady ino fs
      → alloc_nid ino fs ≡ done nid fs'
      → (nid ≢ invalid_nid)
        × (in_use fs nid ≡ false)
        × (in_use fs' nid ≡ true)
        × ((k : ℕ) → in_use fs k ≡ true → in_use fs' k ≡ true)
        × IsReady ino fs') where
  -- When a name is not in a directory, which has the size of its levels, whose blocks can be read and are
  -- holes behind its end, and a level can be appended, in a state that is ready to give out ids to it,
  -- the search for a place for the name succeeds: the assertion after the second search holds. The entry
  -- fits at the place that is given.
  pub search_create_pos-HasRoom :
      (dir : Directory Fs) (i' : DirInode Fs) (ino : ℕ) (name : List ℕ) (name_hash : ℕ)
      → 0 < length name
      → Consistent alloc_nid in_use IsReady alloc_nid-in_use ino dir.inode.file
      → IsSized dir.inode
      → dir.inode.i_dir_level < 256
      → hscfs_dentry_hash name ≡ some name_hash
      → ((blk : ℕ)
          → Among blk (candidates dir.inode.i_dir_level (suc dir.inode.i_current_depth) 0 name_hash)
          → IsReadable dir.blocks name name_hash blk)
      → ((blk slot : ℕ) (e : Named)
          → Among blk (candidates dir.inode.i_dir_level (suc dir.inode.i_current_depth) 0 name_hash)
          → Holds dir.blocks name name_hash blk slot e
          → ⊥)
      → ((blk : ℕ) → size_to_block dir.inode.file.i_size ≤ blk → dir.blocks blk ≡ none)
      → append_hash_level alloc_nid dir.inode ino ≡ done tt i'
      → (pos : DentryStorePos) × (dir' : Directory Fs) × (search_create_pos alloc_nid dir ino name
          ≡ done pos dir')
        × HasRoom dir'.blocks name name_hash pos.blkno pos.slotno
  unfolding search_create_pos
  search_create_pos-HasRoom dir i' ino name name_hash some_name consistent sized byte hashed
        readable absent behind appended =
      let (pos, ran, room) =
        lookup_pos-Room dir name name_hash some_name sized hashed readable absent in
      elim (Room-cases room) [
        | inr (p, at, has) ↦ (p, dir, rw ran (rw at refl), has)
        | inl (nowhere_yet, full) ↦
            let (deeper, same, sized', paths) =
              append_hash_level-IsSized alloc_nid in_use IsReady alloc_nid-in_use dir.inode i' ino
                consistent sized byte appended in
            let dir1 : Directory Fs = record dir { inode = i' } in
            let deeper_blk = Among-deeper dir.inode i' name_hash sized sized' deeper same in
            let (pos1, ran1, room1) =
              lookup_pos-Room dir1 name name_hash some_name sized' hashed
                (λ blk h. elim (deeper_blk blk h) [
                  | inl old ↦ readable blk old
                  | inr new ↦ hole (behind blk new)
                ])
                (λ blk slot e h holds. elim (deeper_blk blk h) [
                  | inl old ↦ absent blk slot e old holds
                  | inr new ↦ Holds-hole holds (behind blk new)
                ]) in
            elim (Room-cases room1) [
              | inr (p, at, has) ↦
                  (p, dir1, rw ran (rw nowhere_yet (rw appended (rw ran1 (rw at refl)))), has)
              | inl (nowhere_still, full1) ↦ absurd (
                  NoRoom-hole
                    (full1 (start dir.inode.i_dir_level name_hash (suc dir.inode.i_current_depth))
                      (Among-last dir.inode i' name_hash sized sized' deeper same))
                    (behind (start dir.inode.i_dir_level name_hash (suc dir.inode.i_current_depth))
                      (last_start dir.inode i' name_hash sized sized' deeper same)))
            ]
      ]
