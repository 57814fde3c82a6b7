-- ===== src/Tests/Directories.antt =====
-- Directories, at concrete blocks.
use hscfs.Base.{
  ℕ, ◌*◌, ◌%◌, ◌^◌, ◌<◌, ◌≤◌, ◌≡◌, ◌≢◌, refl, ap, sym, subst, List, [], ◌∷◌, ◌++◌, true, false,
  Option, none, some, some_inj, ◌==◌, ◌||◌, if◌then◌else◌, put, nat_key, arith, Bool-cases, inl,
  inr,
}
use hscfs.Base.Outcome.{done, thrown, expand_file_size_exceed_limit}
use hscfs.FileMapping.{get_node_path}
use hscfs.FileMapping.Pointers.{inode}
use hscfs.FileMapping.Resizer.{NodeBlock, get_node_entry}
use hscfs.FileMapping.Resizer.Expand.{expand, ensure_block, ensure_blocks, ensure_path}
use hscfs.FileMapping.Resizer.Expand.Extensions.{HasPathOf}
use hscfs.Directory.{
  DentryBlock, formatted, compare_name, reset_bitmap_pos, reset_bits, reset_overlap,
  create_dentry_in_blk, remove_dentry_in_blk, hscfs_match_name,
}
use hscfs.Directory.Layout.{entry, Named, entry_of, IsLaidOut, is_named, slot_of}
use hscfs.Directory.Changes.{unused_slots, unused_slots-IsLaidOut}
use hscfs.Directory.Names.{
  target_in, create_dentry_in_blk-found, remove_dentry_in_blk-not_found,
  remove_dentry_in_blk-clears_upper, remove_dentry_in_blk-clears_hash,
}
use hscfs.Directory.Hash.{hscfs_dentry_hash, hscfs_dentry_hash-lt}
use hscfs.Directory.Buckets.{bucket_num, bucket_block_num, DirInode, append_hash_level}
use hscfs.Directory.Buckets.Sizes.{all_blocks, IsSized}
use hscfs.Directory.Buckets.Append.{append_hash_level-IsSized, append_hash_level-thrown}
use hscfs.Directory.Lookup.{DentryStorePos, DentryInfo, Directory, lookup}
use hscfs.Directory.Lookup.Scan.{candidates}
use hscfs.Directory.Lookup.Block.{IsReadable, hole, laid, HasRoom, Answer}
use hscfs.Directory.Lookup.Answers.{lookup-Answer}
use hscfs.Directory.Lookup.Create.{search_create_pos}
use hscfs.Directory.Lookup.Create.Succeeds.{search_create_pos-HasRoom}
use hscfs.Meta.{Meta}
use hscfs.Meta.FreeIds.{HasIds, in_use, alloc_nid-in_use}
use hscfs.Tests.Data.{pool, read_pool, alloc_for, pool-is_ready, pool-in_use}
use hscfs.Tests.Nodes.{node_block, state_of}

abbrev readme : Named
readme = record { name = 82 ∷ 69 ∷ 65 ∷ []; hash_code = 5; ino = 11; file_type = 1 }

formatted-IsLaidOut : IsLaidOut formatted 0 (unused_slots 1 ++ (unused_slots 213 ++ []))
formatted-IsLaidOut =
    unused_slots-IsLaidOut formatted 1 (unused_slots 213 ++ []) 0 (λ i h. refl)
      (unused_slots-IsLaidOut formatted 213 [] 1 (λ i h. refl) refl)

create_dentry_in_blk-found_example :
    (b' : DentryBlock) × (create_dentry_in_blk readme.name 5 1 11 formatted 0 ≡ some b')
    × (target_in b' readme.name 5 ≡ some (some 0))
    × ((name : List ℕ) (namehash : ℕ)
        → is_named name namehash readme ≡ false
        → target_in b' name namehash ≡ target_in formatted name namehash)
create_dentry_in_blk-found_example =
    create_dentry_in_blk-found formatted [] (unused_slots 213 ++ []) readme (omega arith)
      (omega arith) (λ i h. omega (arith, h)) formatted-IsLaidOut refl

abbrev with_readme : DentryBlock
with_readme = record {
  dentry_bitmap = λ slot. slot == 0;
  dentry = λ slot. entry_of readme;
  filename = λ i. if i == 0 then 82 else if i == 1 then 69 else 65;
}

with_readme-IsLaidOut : IsLaidOut with_readme 0 (entry readme ∷ (unused_slots 213 ++ []))
unfolding compare_name
with_readme-IsLaidOut = (
  (omega arith, λ i h. ground (arith, h), refl, refl),
  unused_slots-IsLaidOut with_readme 213 [] 1 (λ i h. ground arith) refl,
)

remove_dentry_in_blk-not_found_example :
    (b' : DentryBlock) × (remove_dentry_in_blk readme.name with_readme 0 ≡ some b')
    × (target_in b' readme.name 5 ≡ some none)
    × ((name : List ℕ) (namehash : ℕ)
        → is_named name namehash readme ≡ false
        → target_in b' name namehash ≡ target_in with_readme name namehash)
remove_dentry_in_blk-not_found_example =
    remove_dentry_in_blk-not_found with_readme [] (unused_slots 213 ++ []) readme (omega arith)
      (omega arith) (λ i h. omega (arith, h)) with_readme-IsLaidOut refl (λ j h. ground (arith, h))
      (omega arith)

-- A second entry, which was created by other code in the slot 40.
abbrev with_two : DentryBlock
with_two = record with_readme { dentry_bitmap = λ slot. (slot == 0) || (slot == 40) }

abbrev block_of : Option DentryBlock → DentryBlock
block_of none = formatted
block_of (some b) = b

remove_dentry_in_blk-clears_upper_example :
    (block_of (remove_dentry_in_blk readme.name with_two 0)).dentry_bitmap 40 ≡ false
unfolding remove_dentry_in_blk reset_bits reset_bitmap_pos
remove_dentry_in_blk-clears_upper_example =
    remove_dentry_in_blk-clears_upper readme.name with_two
      {blk' = block_of (remove_dentry_in_blk readme.name with_two 0)} 0 40 refl refl (omega arith)

-- An entry in the slot 192, beside the one in the slot 0, whose hash has low bits.
abbrev far_apart : DentryBlock
far_apart = record with_readme {
  dentry_bitmap = λ slot. (slot == 0) || (slot == 192);
  dentry =
      put with_readme.dentry 192 (record { hash_code = 6; ino = 12; name_len = 3; file_type = 1 });
}

remove_dentry_in_blk-clears_hash_example :
    (((block_of (remove_dentry_in_blk readme.name far_apart 192)).dentry 0).hash_code ≡ 0)
    × ((other : List ℕ) (namehash : ℕ)
        → namehash % 2 ^ 16 ≢ 0
        → hscfs_match_name
            (block_of (remove_dentry_in_blk readme.name far_apart 192))
            ((block_of (remove_dentry_in_blk readme.name far_apart 192)).dentry 0)
            other
            0
            namehash
          ≡ false)
unfolding remove_dentry_in_blk reset_bits reset_bitmap_pos reset_overlap
remove_dentry_in_blk-clears_hash_example =
    remove_dentry_in_blk-clears_hash readme.name far_apart
      {blk' = block_of (remove_dentry_in_blk readme.name far_apart 192)} 192 (omega arith) refl

-- A directory of one level, with the entry in its first block.
abbrev small_inode : DirInode Meta
small_inode = record {
  i_current_depth = 0;
  i_dir_level = 0;
  file = record {
    i_size = 8192;
    nodes = put (λ nid. none) 7 (some (node_block 7 7 0 (inode (λ i. 0) (λ i. 0))));
    fs = pool;
  };
}

small_inode-Consistent :
    HasIds read_pool 0 7 small_inode.file.fs
    × ((nid : ℕ) (b : NodeBlock)
        → small_inode.file.nodes nid ≡ some b
        → in_use read_pool small_inode.file.fs nid ≡ true)
small_inode-Consistent = (
  pool-is_ready,
  λ nid b h.
      let at : nid ≡ 7 = ground (arith, h) in
      subst (λ k. in_use read_pool pool k ≡ true) {x = 7} (sym at) pool-in_use,
)

small_inode-IsSized : IsSized small_inode
unfolding bucket_num bucket_block_num
small_inode-IsSized = record { size = refl; limit = omega arith }

abbrev small_dir : Directory Meta
small_dir = record {
  inode = small_inode;
  blocks = λ blk. if blk == 0 then some with_readme else none;
}

readme-valid :
    (name : List ℕ) (name_hash slot : ℕ) (e : Named)
    → slot_of name name_hash 0 (entry readme ∷ (unused_slots 213 ++ [])) ≡ some (slot, e)
    → e.ino ≢ 0
readme-valid name name_hash slot e h zero_ino = elim (Bool-cases (is_named name name_hash readme)) [
  | inl hit ↦
      let same = some_inj (rw hit at h) in
      let ino : 11 ≡ e.ino = ap (λ r. r.1.ino) same in omega (arith, ino, zero_ino)
  | inr miss ↦ absurd (let h1 = rw miss at h in ground (arith, h1))
]

small_dir-IsReadable :
    (name : List ℕ) (name_hash blk : ℕ) → IsReadable small_dir.blocks name name_hash blk
small_dir-IsReadable name name_hash blk = elim (Bool-cases (blk == 0)) [
  | inr other ↦ hole (rw other refl)
  | inl first ↦
      laid with_readme (entry readme ∷ (unused_slots 213 ++ [])) (rw first refl)
        with_readme-IsLaidOut (readme-valid name name_hash)
]

lookup-Answer_example :
    (name_hash : ℕ) × (info : DentryInfo) × (hscfs_dentry_hash readme.name ≡ some name_hash)
    × (lookup small_dir readme.name ≡ some info)
    × Answer small_dir.blocks readme.name name_hash none (candidates 0 1 0 name_hash) info
lookup-Answer_example =
    lookup-Answer small_dir readme.name (omega arith) small_inode-IsSized
      (λ h e blk among. small_dir-IsReadable readme.name h blk)

append_hash_level-IsSized_example :
    ((state_of small_inode (append_hash_level alloc_for small_inode 7)).i_current_depth ≡ 1)
    × ((state_of small_inode (append_hash_level alloc_for small_inode 7)).i_dir_level ≡ 0)
    × IsSized (state_of small_inode (append_hash_level alloc_for small_inode 7))
    × ((blk : ℕ)
        → all_blocks 0 1 ≤ blk
        → blk < all_blocks 0 2
        → HasPathOf (state_of small_inode (append_hash_level alloc_for small_inode 7)).file 7 blk)
unfolding append_hash_level expand ensure_blocks ensure_block ensure_path get_node_path
    get_node_entry bucket_num bucket_block_num
append_hash_level-IsSized_example =
    append_hash_level-IsSized alloc_for (in_use read_pool) (HasIds read_pool 0)
      (alloc_nid-in_use read_pool) small_inode
      (state_of small_inode (append_hash_level alloc_for small_inode 7)) 7 small_inode-Consistent
      small_inode-IsSized (omega arith) refl

abbrev deep_inode : DirInode Meta
deep_inode = record small_inode {
  i_current_depth = 27;
  file = record (small_inode.file) { i_size = 536870910 * 4096 };
}

deep_inode-IsSized : IsSized deep_inode
unfolding bucket_num bucket_block_num
deep_inode-IsSized = record { size = refl; limit = omega arith }

append_hash_level-thrown_example :
    (append_hash_level alloc_for deep_inode 7
      ≡ thrown expand_file_size_exceed_limit (record deep_inode { i_current_depth = 28 }))
    × (IsSized (record deep_inode { i_current_depth = 28 }) → ⊥)
unfolding bucket_num bucket_block_num get_node_entry
append_hash_level-thrown_example =
    append_hash_level-thrown alloc_for deep_inode 7 {b = node_block 7 7 0 (inode (λ i. 0) (λ i. 0))}
      deep_inode-IsSized (omega arith) (omega arith) refl refl refl

-- The directory without a block.
abbrev empty_dir : Directory Meta
empty_dir = record { inode = small_inode; blocks = λ blk. none }

abbrev readme_hash : ℕ
readme_hash = (hscfs_dentry_hash-lt readme.name).0

search_create_pos-HasRoom_example :
    (pos : DentryStorePos) × (dir' : Directory Meta) × (search_create_pos alloc_for empty_dir 7
        readme.name
      ≡ done pos dir')
    × HasRoom dir'.blocks readme.name readme_hash pos.blkno pos.slotno
unfolding append_hash_level expand ensure_blocks ensure_block ensure_path get_node_path
    get_node_entry bucket_num bucket_block_num
search_create_pos-HasRoom_example =
    search_create_pos-HasRoom alloc_for (in_use read_pool) (HasIds read_pool 0)
      (alloc_nid-in_use read_pool) empty_dir
      (state_of small_inode (append_hash_level alloc_for small_inode 7)) 7 readme.name readme_hash
      (omega arith) small_inode-Consistent small_inode-IsSized (omega arith)
      (hscfs_dentry_hash-lt readme.name).1 (λ blk among. hole refl)
      (λ blk slot e among holds. (let cached = holds.cached in ground (arith, cached)))
      (λ blk h. refl) refl
