-- ===== src/FileMapping/Resizer/Reduction.antt =====
-- A reduction of a file whose blocks have their addresses in the inode.
use hscfs.Base.{
  ℕ, ◌+◌, ◌-◌, ◌≡◌, ◌≤◌, ◌<◌, ◌∙◌, refl, sym, ap, subst, true, false, Option, some, none, ltb, leb,
  ◌==◌, if◌then◌else◌, nat_key, guard, ◌>>◌, arith, some_inj, Bool-cases, Option-cases, ℕ-cases,
  inl, inr,
}
use hscfs.FileMapping.{def_addrs_per_inode}
use hscfs.FileMapping.Pointers.{inode}
use hscfs.FileMapping.Resizer.{NodeBlock, FileNodes, size_to_block, set_node, get_node_entry}
use hscfs.FileMapping.Resizer.Reduce.{proc_single_node, proc_slots, free_blocks_in_range, reduce}
use hscfs.FileMapping.Resizer.Frees.{direct_pointers, valid_addrs, freed, invalidate_all}

-- What an entry that is found is.
get_node_entry_inv :
    {Fs : Type 0} (s : FileNodes Fs) (nid : ℕ) {b : NodeBlock}
    → get_node_entry s nid 0 ≡ some b
    → (s.nodes nid ≡ some b) × (b.nid ≡ nid) × (b.ino ≡ nid)
unfolding get_node_entry
get_node_entry_inv s nid {b} h = elim (Option-cases (s.nodes nid)) [
  | inl missing ↦ absurd (ground (arith, h, missing))
  | inr (b1, at) ↦
      let h1 : (do guard (b1.nid == nid); guard (b1.ino == nid); some b1) ≡ some b =
        sym (rw at refl) ∙ h in
      elim (Bool-cases (b1.nid == nid)) [
        | inr other ↦ absurd (ground (arith, h1, other))
        | inl same ↦ elim (Bool-cases (b1.ino == nid)) [
          | inr other ↦ absurd (ground (arith, h1, same, other))
          | inl top ↦
              let e : b1 ≡ b = some_inj (sym (rw (same, top) refl) ∙ h1) in
              subst (λ c. (s.nodes nid ≡ some c) × (c.nid ≡ nid) × (c.ino ≡ nid)) e
                (at, ground (arith, same), ground (arith, top))
        ]
      ]
]

module _ {Fs : Type 0} (invalidate_lpa : ℕ → Fs → Option Fs)
    (release_node : ℕ → Fs → Option Fs) where
  slots_beyond :
      (s : FileNodes Fs) (ino start_blk end_blk : ℕ)
      → end_blk < def_addrs_per_inode
      → start_blk ≤ end_blk
      → proc_slots invalidate_lpa release_node start_blk end_blk
          (proc_single_node invalidate_lpa release_node start_blk end_blk)
          2
          1020
          s
          ino
          0
          932
        ≡ some (none, s)
  unfolding proc_slots
  slots_beyond s ino start_blk end_blk inside ordered =
      let test : ltb (932 + 1020 - 1) start_blk ≡ false = ground (arith, ordered, inside) in
      let last : ltb end_blk 932 ≡ true = ground (arith, inside) in rw (proc_slots, test, last) refl

  -- A reduction of a file whose blocks all have their addresses in the inode: the size is the new one, the
  -- valid addresses of the blocks after it are invalidated, each once and in order, and their pointers are
  -- cleared; all other pointers and all other node blocks stay.
  pub reduce-Frees :
      (s : FileNodes Fs) (ino : ℕ) {b : NodeBlock} {i_addr i_nid : ℕ → ℕ} (tar_size : ℕ) {fs' : Fs}
      → get_node_entry s ino 0 ≡ some b
      → b.node ≡ inode i_addr i_nid
      → b.noffset ≡ 0
      → size_to_block s.i_size ≤ def_addrs_per_inode
      → tar_size < s.i_size
      → invalidate_all invalidate_lpa
          (valid_addrs i_addr
            (size_to_block tar_size)
            (size_to_block s.i_size - size_to_block tar_size))
          s.fs
        ≡ some fs'
      → (s' : FileNodes Fs) × (addr' : ℕ → ℕ) × (reduce invalidate_lpa release_node s ino tar_size
          ≡ some s')
        × (s'.i_size ≡ tar_size)
        × (s'.fs ≡ fs')
        × ((nid : ℕ)
            → s'.nodes nid
              ≡ (if nid == ino then some (record b { node = inode addr' i_nid }) else s.nodes nid))
        × ((j : ℕ)
            → addr' j
              ≡ freed i_addr
                  (size_to_block tar_size)
                  (size_to_block s.i_size - size_to_block tar_size)
                  j)
  unfolding reduce free_blocks_in_range get_node_entry
  reduce-Frees s ino {b} {i_addr} {i_nid} tar_size {fs'} found is_inode top small shrinks h =
      let (at, nid_eq, ino_eq) = get_node_entry_inv s ino found in
      let whole : (b.ino == b.nid) ≡ true = ground (arith, nid_eq, ino_eq) in
      let offset : (b.noffset == 0) ≡ true = ground (arith, top) in
      let smaller : leb s.i_size tar_size ≡ false = ground (arith, shrinks) in
      elim (Bool-cases (ltb (size_to_block s.i_size - 1) (size_to_block tar_size))) [
        | inl within ↦
            let none_left : size_to_block s.i_size - size_to_block tar_size ≡ 0 =
              ground (arith, within) in
            let fs_eq : s.fs ≡ fs' = some_inj (sym (rw none_left refl) ∙ h) in
            (
              record s { i_size = tar_size },
              i_addr,
              rw (found, whole, offset, smaller, within) refl,
              refl,
              fs_eq,
              λ nid. elim (ℕ-cases nid ino) [
                | inl here ↦ rw here (
                    at
                    ∙ (let self : (ino == ino) ≡ true = ground arith in
                        rw self (ap (λ n. some (record b { node = n })) is_inode)))
                | inr other ↦ ground (arith, other)
              ],
              λ j. ground (arith, none_left),
            )
        | inr beyond ↦
            let s1 : FileNodes Fs = record s { i_size = tar_size } in
            let count : size_to_block s.i_size - 1 + 1 - size_to_block tar_size
                ≡ size_to_block s.i_size - size_to_block tar_size =
              omega (arith, shrinks) in
            let ordered : size_to_block tar_size ≤ size_to_block s.i_size - 1 =
              ground (arith, beyond) in
            let (addr', ran, effect) =
              direct_pointers invalidate_lpa release_node s1 ino b i_addr i_nid at is_inode
                (size_to_block tar_size) (size_to_block s.i_size - 1) {fs' = fs'} ordered
                (omega (arith, small)) (rw count h) in
            let s2 =
              set_node (record s1 { fs = fs' }) ino (record b { node = inode addr' i_nid }) in
            let rest =
              slots_beyond s2 ino (size_to_block tar_size) (size_to_block s.i_size - 1)
                (omega (arith, small)) ordered in
            (
              s2,
              addr',
              rw (found, whole, offset, smaller, beyond) (rw (ran, rest) refl),
              refl,
              refl,
              λ nid. ground arith,
              λ j. effect j ∙ rw count refl,
            )
      ]
