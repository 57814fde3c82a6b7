-- ===== src/Directory/Lookup/Create.antt =====
-- The place where an entry is created (src/fs/directory.cc, `get_create_pos`).
pub mod Succeeds
use hscfs.Base.{
  ℕ, ◌+◌, ◌-◌, ◌%◌, ◌^◌, List, Bool, true, false, not, Option, none, some, is_some, ◌==◌,
  if◌then◌else◌, put, nat_key, pred32, guard,
}
use hscfs.Base.Outcome.{Outcome, done, thrown, aborted, step, ◌>>=◌}
use hscfs.Fs.{invalid_nid}
use hscfs.FileMapping.Resizer.{FileNodes, size_to_block}
use hscfs.Directory.{DentryBlock, formatted}
use hscfs.Directory.Buckets.{DirInode, append_hash_level}
use hscfs.Directory.Lookup.{DentryStorePos, DentryInfo, Directory, lookup, is_create_pos_valid}

abbrev with_inode :
    {Fs : Type 0} → Directory Fs → Outcome (DirInode Fs) Unit → Outcome (Directory Fs) Unit
with_inode dir (done u i) = done u (record dir { inode = i })
with_inode dir (thrown e i) = thrown e (record dir { inode = i })
with_inode dir aborted = aborted

-- `lookup`, with the assertion that the name is not there.
unfoldable pub lookup_pos : {Fs : Type 0} → Directory Fs → List ℕ → Option (Option DentryStorePos)
lookup_pos dir name = elim (lookup dir name) [
  | none ↦ none
  | some info ↦ if info.ino == invalid_nid then some info.store_pos else none
]

module _ {Fs : Type 0} (alloc_nid : ℕ → Fs → Outcome Fs ℕ) where
  -- The place without a valid hint: a new level is appended if there is none.
  unfoldable pub search_create_pos :
      Directory Fs → ℕ → List ℕ → Outcome (Directory Fs) DentryStorePos
  search_create_pos dir ino name = step (lookup_pos dir name) (λ pos. elim pos [
    | some create_pos ↦ done create_pos dir
    | none ↦ with_inode dir (append_hash_level alloc_nid dir.inode ino) >>= (λ (u, dir1).
        step (lookup_pos dir1 name) (λ pos1. step pos1 (λ create_pos. done create_pos dir1)))
  ])

  abbrev is_hint_valid : Directory Fs → List ℕ → Option DentryStorePos → Bool
  is_hint_valid dir name none = false
  is_hint_valid dir name (some hint) =
      is_create_pos_valid dir.blocks name hint (pred32 (size_to_block dir.inode.file.i_size))

  abbrev hint_or_search :
      Directory Fs
      → ℕ
      → List ℕ
      → Option DentryStorePos
      → Bool
      → Outcome (Directory Fs) DentryStorePos
  hint_or_search dir ino name hint false = search_create_pos dir ino name
  hint_or_search dir ino name hint true = step hint (λ create_pos. done create_pos dir)

  -- A block that is not allocated is added to the cache, formatted.
  unfoldable pub get_create_pos :
      Directory Fs → ℕ → List ℕ → Option DentryStorePos → Outcome (Directory Fs) DentryStorePos
  get_create_pos dir ino name hint =
      if not (dir.inode.file.i_size % 4096 == 0)
      then aborted
      else hint_or_search dir ino name hint (is_hint_valid dir name hint) >>= (λ (pos, dir1).
        done pos (elim (dir1.blocks pos.blkno) [
          | none ↦ record dir1 { blocks = put dir1.blocks pos.blkno (some formatted) }
          | some block ↦ dir1
        ]))
