-- ===== src/Tests/Nodes.antt =====
-- The node blocks of files, at concrete nodes.
use hscfs.Base.{
  ℕ, ◌+◌, ◌*◌, ◌<◌, ◌≤◌, ◌≡◌, refl, sym, subst, List, [], ◌∷◌, true, Option, none, some, ◌==◌,
  if◌then◌else◌, put, nat_key, arith, inl,
}
use hscfs.Base.Outcome.{Outcome, done, thrown, aborted}
use hscfs.FileMapping.{get_node_path}
use hscfs.Meta.{Meta}
use hscfs.Meta.FreeIds.{HasIds, in_use, alloc_nid-in_use, alloc_nid-HasIds}
use hscfs.Tests.Data.{pool, read_pool, alloc_for, pool-HasIds, pool-is_ready, pool-in_use}
use hscfs.FileMapping.Pointers.{Node, inode, indirect, get_next_nid, get_lpa, set_lpa}
use hscfs.FileMapping.Resizer.{NodeBlock, FileNodes, set_node, get_node_entry}
use hscfs.FileMapping.Resizer.Reduce.{reduce, free_blocks_in_range}
use hscfs.FileMapping.Resizer.Frees.{freed, free_blocks_in_range-frees_nothing}
use hscfs.FileMapping.Resizer.Reduction.{reduce-Frees}
use hscfs.FileMapping.Resizer.Expand.{expand, ensure_block, ensure_blocks}
use hscfs.FileMapping.Resizer.Expand.Ensures.{expand-HasPaths}
use hscfs.FileMapping.Resizer.Expand.Extensions.{HasPathOf, Stays}
use hscfs.FileMapping.Resizer.Expand.Returns.{ensure_block-eq_done}
use hscfs.FileMapping.Mapping.{
  last_node, nxt_nid, find_node, get_addr_of_block, update_block_mapping, with_slot,
  update_block_mapping-get_addr_of_block,
}

-- A list of the invalidated addresses.
abbrev pub note_lpa : ℕ → List ℕ → Option (List ℕ)
note_lpa lpa fs = some (lpa ∷ fs)

abbrev pub node_block : ℕ → ℕ → ℕ → Node → NodeBlock
node_block ino nid noffset node = record { ino = ino; nid = nid; noffset = noffset; node = node }

abbrev pub three_blocks : FileNodes (List ℕ)
three_blocks = record {
  i_size = 10000;
  nodes =
      put (λ nid. none) 7
        (some (node_block 7 7 0 (inode (λ i. if i == 1 then 0 else i + 100) (λ i. 0))));
  fs = [];
}

reduce-Frees_example :
    (s' : FileNodes (List ℕ)) × (addr' : ℕ → ℕ) × (reduce note_lpa note_lpa three_blocks 7 4000
      ≡ some s')
    × (s'.i_size ≡ 4000)
    × (s'.fs ≡ 102 ∷ [])
    × ((nid : ℕ)
        → s'.nodes nid ≡ (
            if nid == 7
            then some (node_block 7 7 0 (inode addr' (λ i. 0)))
            else three_blocks.nodes nid))
    × ((j : ℕ) → addr' j ≡ freed (λ i. if i == 1 then 0 else i + 100) 1 2 j)
unfolding get_node_entry
reduce-Frees_example =
    reduce-Frees note_lpa note_lpa three_blocks 7 4000 refl refl refl (omega arith) (omega arith)
      refl

-- A file whose first double node is 9.
abbrev double_node : FileNodes (List ℕ)
double_node = record {
  i_size = 2200 * 4096;
  nodes =
      put
        (put (λ nid. none) 7
          (some (node_block 7 7 0 (inode (λ i. 1) (λ i. if i == 2 then 9 else 8)))))
        9 (some (node_block 7 9 3 (indirect (λ i. 10))));
  fs = [];
}

free_blocks_in_range-frees_nothing_example :
    free_blocks_in_range note_lpa note_lpa 2000 2199 double_node 7 ≡ some double_node
unfolding get_node_entry
free_blocks_in_range-frees_nothing_example =
    free_blocks_in_range-frees_nothing note_lpa note_lpa double_node 7
      (node_block 7 7 0 (inode (λ i. 1) (λ i. if i == 2 then 9 else 8))) (λ i. 1)
      (λ i. if i == 2 then 9 else 8) refl refl 2000 2199 (omega arith) (omega arith) (omega arith)
      refl

abbrev pub full_inode : FileNodes Meta
full_inode = record {
  i_size = 932 * 4096;
  nodes = put (λ nid. none) 7 (some (node_block 7 7 0 (inode (λ i. 1) (λ i. 0))));
  fs = pool;
}

full_inode-Consistent :
    HasIds read_pool 0 7 full_inode.fs
    × ((nid : ℕ) (b : NodeBlock)
        → full_inode.nodes nid ≡ some b
        → in_use read_pool full_inode.fs nid ≡ true)
full_inode-Consistent = (
  pool-is_ready,
  λ nid b h.
      let at : nid ≡ 7 = ground (arith, h) in
      subst (λ k. in_use read_pool pool k ≡ true) {x = 7} (sym at) pool-in_use,
)

abbrev pub state_of : {S A : Type 0} → S → Outcome S A → S
state_of start (done a s) = s
state_of start (thrown e s) = s
state_of start aborted = start

ensure_block-eq_done_example :
    (s' : FileNodes Meta) × (ensure_block alloc_for full_inode 7 4000 ≡ done tt s')
    × HasPathOf s' 7 4000
unfolding get_node_path get_next_nid
ensure_block-eq_done_example =
    ensure_block-eq_done alloc_for (in_use read_pool) (HasIds read_pool 0)
      (alloc_nid-in_use read_pool) (HasIds read_pool) (alloc_nid-HasIds read_pool) full_inode 7 4000
      (record { level = 2; offset = 935 ∷ 1 ∷ 8 ∷ []; noffset = 0 ∷ 3 ∷ 5 ∷ [] })
      full_inode-Consistent refl
      (let (real, nids, many, listed) = pool-HasIds in (real, nids, omega (arith, many), listed))
      (node_block 7 7 0 (inode (λ i. 1) (λ i. 0)), 0, refl, refl, inl refl)

-- An expansion by the first block behind the inode, which takes an id.
one_more : (s' : FileNodes Meta) × (expand alloc_for full_inode 7 (933 * 4096) ≡ done tt s')
unfolding expand ensure_blocks get_node_path get_next_nid get_node_entry
one_more =
    let (s', ran, path) =
      ensure_block-eq_done alloc_for (in_use read_pool) (HasIds read_pool 0)
        (alloc_nid-in_use read_pool) (HasIds read_pool) (alloc_nid-HasIds read_pool)
        (record full_inode { i_size = 933 * 4096 }) 7 932
        (record { level = 1; offset = 933 ∷ 0 ∷ []; noffset = 0 ∷ 1 ∷ [] }) full_inode-Consistent
        refl
        (let (real, nids, many, listed) = pool-HasIds in (real, nids, omega (arith, many), listed))
        (node_block 7 7 0 (inode (λ i. 1) (λ i. 0)), 0, refl, refl, inl refl) in
    (s', rw ran refl)

expand-HasPaths_example :
    (one_more.0.i_size ≡ 933 * 4096)
    × ((blk : ℕ) → 932 ≤ blk → blk < 933 → HasPathOf one_more.0 7 blk)
    × ((nid : ℕ) (b : NodeBlock) → full_inode.nodes nid ≡ some b → Stays one_more.0 nid b)
expand-HasPaths_example =
    expand-HasPaths alloc_for (in_use read_pool) (HasIds read_pool 0) (alloc_nid-in_use read_pool)
      full_inode one_more.0 7 (933 * 4096) full_inode-Consistent (omega arith) one_more.1

update_block_mapping-get_addr_of_block_example :
    ◌≡◌ {A = ℕ} 300 300
    × (get_addr_of_block
          (set_node three_blocks 7
            (node_block 7 7 0 (inode (put (λ i. if i == 1 then 0 else i + 100) 2 300) (λ i. 0))))
          7
          2
        ≡ some (record { lpa = 300; nid = 7; nid_off = 2 }))
    × ((blk : ℕ)
        → get_addr_of_block
            (set_node three_blocks 7
              (node_block 7 7 0 (inode (put (λ i. if i == 1 then 0 else i + 100) 2 300) (λ i. 0))))
            7
            blk
          ≡ with_slot 7 2 300 (get_addr_of_block three_blocks 7 blk))
unfolding update_block_mapping get_addr_of_block find_node last_node nxt_nid get_node_path get_lpa
    set_lpa
update_block_mapping-get_addr_of_block_example =
    update_block_mapping-get_addr_of_block three_blocks
      (set_node three_blocks 7
        (node_block 7 7 0 (inode (put (λ i. if i == 1 then 0 else i + 100) 2 300) (λ i. 0))))
      7 2 300 {addr' = record { lpa = 300; nid = 7; nid_off = 2 }} refl
