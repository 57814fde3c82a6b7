-- ===== src/Directory/Lookup/Answers.antt =====
-- What the search for a name in a directory answers.
use hscfs.Base.{
  ℕ, suc, ◌≡◌, ◌<◌, ◌∙◌, refl, subst, List, [], ◌∷◌, true, false, not, Option, none, some, ◌==◌,
  length, arith, Option-cases, inl, inr,
}
use hscfs.Fs.{invalid_nid}
use hscfs.Directory.{DentryBlock}
use hscfs.Directory.Hash.{hscfs_dentry_hash, hscfs_dentry_hash-lt}
use hscfs.Directory.Buckets.Sizes.{IsSized}
use hscfs.Directory.Lookup.{DentryStorePos, DentryInfo, Directory, no_info, first_pos, lookup}
use hscfs.Directory.Lookup.Scan.{scan, candidates, lookup_levels-scan}
use hscfs.Directory.Lookup.Block.{
  Among, IsReadable, Room, kept, nowhere, room_at, Answer, found, not_found,
  find_dentry_in_block-Answer,
}

module _ (blocks : ℕ → Option DentryBlock) (name : List ℕ) (name_hash : ℕ) where
  abbrev join : Option DentryStorePos → Option DentryStorePos → Option DentryStorePos
  join none pos = pos
  join (some known) pos = some known

  first_pos-join :
      (info cur : DentryInfo) → (first_pos info cur).store_pos ≡ join info.store_pos cur.store_pos
  first_pos-join info cur = elim (Option-cases info.store_pos) [
    | inl unknown ↦ elim (Option-cases cur.store_pos) [
      | inl none_here ↦ rw (unknown, none_here) (ground (arith, unknown))
      | inr (pos, here) ↦ rw (unknown, here) refl
    ]
    | inr (pos, known) ↦ rw known (ground (arith, known))
  ]

  Room-cons :
      (known pos1 pos : Option DentryStorePos) (blk : ℕ) (blks : List ℕ)
      → Room blocks name name_hash none (blk ∷ []) pos1
      → Room blocks name name_hash (join known pos1) blks pos
      → Room blocks name name_hash known (blk ∷ blks) pos
  Room-cons none none none blk blks (nowhere here) (nowhere later) =
      nowhere (λ k h. elim h [ inl e ↦ here k (inl e) | inr more ↦ later k more ])
  Room-cons none none (some pos) blk blks (nowhere here) (room_at among room) =
      room_at (inr among) room
  Room-cons none (some pos1) (some pos) blk blks (room_at {blk = k} among room) kept =
      let first : Among k (blk ∷ blks) = elim among [ inl e ↦ inl e | inr out ↦ absurd out ] in
      room_at first room
  Room-cons none (some pos1) none blk blks r later = elim later [ ]
  Room-cons (some known) pos1 (some pos) blk blks r kept = kept
  Room-cons (some known) pos1 none blk blks r later = elim later [ ]

  Room-nil : (pos : Option DentryStorePos) → Room blocks name name_hash pos [] pos
  Room-nil none = nowhere (λ blk h. absurd h)
  Room-nil (some pos) = kept

  scan-Answer :
      (blks : List ℕ) (info : DentryInfo)
      → 0 < length name
      → ((blk : ℕ) → Among blk blks → IsReadable blocks name name_hash blk)
      → info.ino ≡ invalid_nid
      → (res : DentryInfo) × (scan blocks name name_hash blks info ≡ some res)
        × Answer blocks name name_hash info.store_pos blks res
  scan-Answer [] info some_name readable none_yet =
      (info, refl, not_found none_yet (λ blk h. absurd h) (Room-nil info.store_pos))
  scan-Answer (blk ∷ blks) info some_name readable none_yet =
      let (cur, ran, answer) =
        find_dentry_in_block-Answer blocks name name_hash blk some_name (readable blk (inl refl)) in
      elim answer [
        | found k slot e among holds ino type valid pos ↦
            let hit : not (cur.ino == invalid_nid) ≡ true = ground (arith, valid) in
            (
              cur,
              rw ran (rw hit refl),
              found k slot e (elim among [ inl same ↦ inl same | inr out ↦ absurd out ]) holds ino
                  type valid pos,
            )
        | not_found ino lacks room ↦
            let miss : not (cur.ino == invalid_nid) ≡ false = ground (arith, ino) in
            let (res, rest, later) =
              scan-Answer blks (first_pos info cur) some_name (λ k h. readable k (inr h))
                (ground (arith, none_yet)) in
            (
              res,
              rw ran (rw miss rest),
              elim later [
                | found k slot e among holds i t v p ↦ found k slot e (inr among) holds i t v p
                | not_found i more room2 ↦
                    not_found i
                      (λ k h. elim h [ inl same ↦ lacks k (inl same) | inr out ↦ more k out ])
                      (Room-cons info.store_pos cur.store_pos res.store_pos blk blks room (
                        subst (λ p. Room blocks name name_hash p blks res.store_pos)
                          (first_pos-join info cur) room2))
              ],
            )
      ]

-- In a directory whose file has the size of its levels, and whose blocks in the buckets of a name are holes
-- or are laid out with valid inode numbers, the search for the name ends well. It finds the entry in one
-- of these blocks, with its inode number, its type and its place; or none of them has the name, and then it
-- gives a place where the entry fits, in one of these blocks, unless there is none.
pub lookup-Answer :
    {Fs : Type 0} (dir : Directory Fs) (name : List ℕ)
    → 0 < length name
    → IsSized dir.inode
    → ((name_hash : ℕ)
        → hscfs_dentry_hash name ≡ some name_hash
        → (blk : ℕ)
        → Among blk (candidates dir.inode.i_dir_level (suc dir.inode.i_current_depth) 0 name_hash)
        → IsReadable dir.blocks name name_hash blk)
    → (name_hash : ℕ) × (info : DentryInfo) × (hscfs_dentry_hash name ≡ some name_hash)
      × (lookup dir name ≡ some info)
      × Answer dir.blocks name name_hash none
          (candidates dir.inode.i_dir_level (suc dir.inode.i_current_depth) 0 name_hash)
          info
unfolding lookup
lookup-Answer dir name some_name sized readable =
    let (h, hashed, small) = hscfs_dentry_hash-lt name in
    let blks = candidates dir.inode.i_dir_level (suc dir.inode.i_current_depth) 0 h in
    let (info, ran, answer) =
      scan-Answer dir.blocks name h blks no_info some_name (readable h hashed) refl in
    (
      h,
      info,
      hashed,
      rw hashed (
          lookup_levels-scan dir name h sized (suc dir.inode.i_current_depth) 0 no_info
            (omega arith) refl
          ∙ ran),
      answer,
    )
