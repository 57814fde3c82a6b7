-- ===== src/FileMapping/Resizer/Frees.antt =====
-- Which blocks a reduction frees.
use hscfs.Base.{
  ℕ, zero, suc, ◌+◌, ◌-◌, ◌*◌, ◌≡◌, ◌≤◌, ◌<◌, ◌∙◌, refl, sym, ap, min, max, List, [], ◌∷◌, Bool,
  true, false, Option, some, none, ltb, leb, ◌==◌, ◌&&◌, ◌||◌, if◌then◌else◌, put, nat_key, ◌>>=◌,
  arith, Bool-cases, Option-cases, inl, inr,
}
use hscfs.Fs.{invalid_lpa}
use hscfs.FileMapping.{def_addrs_per_inode, nids_per_block}
use hscfs.FileMapping.Pointers.{inode}
use hscfs.FileMapping.Resizer.{NodeBlock, FileNodes, set_node, get_node_entry}
use hscfs.FileMapping.Resizer.Reduce.{
  intersect, free_addrs, proc_direct_pointers_in_inode, proc_single_node, proc_entries,
  proc_indirect_node, proc_double_node, proc_slot, proc_slots, free_blocks_in_range,
  single_node_blks, double_node_blks,
}

-- The valid addresses among `n` pointers, in order.
abbrev pub valid_addrs : (ℕ → ℕ) → ℕ → ℕ → List ℕ
valid_addrs addr i zero = []
valid_addrs addr i (suc n) =
    let rest = valid_addrs addr (i + 1) n in if addr i == invalid_lpa then rest else addr i ∷ rest

abbrev pub freed : (ℕ → ℕ) → ℕ → ℕ → ℕ → ℕ
freed addr i n j = if leb i j && ltb j (i + n) then invalid_lpa else addr j

valid_addrs-cong :
    (f g : ℕ → ℕ) (i n : ℕ) → ((j : ℕ) → i ≤ j → f j ≡ g j) → valid_addrs f i n ≡ valid_addrs g i n
valid_addrs-cong f g i zero same = refl
valid_addrs-cong f g i (suc n) same =
    rw (same i (omega arith), valid_addrs-cong f g (i + 1) n (λ j h. same j (omega (arith, h))))
      refl

abbrev pub invalidate_all : {Fs : Type 0} → (ℕ → Fs → Option Fs) → List ℕ → Fs → Option Fs
invalidate_all invalidate_lpa [] fs = some fs
invalidate_all invalidate_lpa (lpa ∷ lpas) fs = do
  fs1 ← invalidate_lpa lpa fs
  invalidate_all invalidate_lpa lpas fs1

module _ {Fs : Type 0} (invalidate_lpa : ℕ → Fs → Option Fs)
    (release_node : ℕ → Fs → Option Fs) where
  -- The loop over direct pointers invalidates the valid addresses in the range, each once and in order,
  -- and clears the pointers in the range and no other.
  pub free_addrs-Frees :
      (addr : ℕ → ℕ) (i n : ℕ) (fs : Fs) {fs' : Fs}
      → invalidate_all invalidate_lpa (valid_addrs addr i n) fs ≡ some fs'
      → (addr' : ℕ → ℕ) × (free_addrs invalidate_lpa release_node addr i n fs ≡ some (addr', fs'))
        × ((j : ℕ) → addr' j ≡ freed addr i n j)
  unfolding free_addrs
  free_addrs-Frees addr i zero fs h =
      (addr, ap (λ o. elim o [ none ↦ none | some r ↦ some (addr, r) ]) h, λ j. ground arith)
  free_addrs-Frees addr i (suc n) fs {fs'} h = elim (Bool-cases (addr i == invalid_lpa)) [
    | inl no_block ↦
        let (addr', ran, effect) =
          free_addrs-Frees addr (i + 1) n fs {fs' = fs'} (sym (rw no_block refl) ∙ h) in
        (addr', rw no_block ran, λ j. ground (arith, effect j, no_block))
    | inr block ↦ elim (Option-cases (invalidate_lpa (addr i) fs)) [
      | inl failed ↦ absurd (ground (arith, h, block, failed))
      | inr (fs1, ok) ↦
          let same =
            valid_addrs-cong (put addr i invalid_lpa) addr (i + 1) n (λ j l. ground (arith, l)) in
          let h1 : invalidate_all invalidate_lpa (valid_addrs addr (i + 1) n) fs1 ≡ some fs' =
            sym (rw (block, ok) refl) ∙ h in
          let (addr', ran, effect) =
            free_addrs-Frees (put addr i invalid_lpa) (i + 1) n fs1 {fs' = fs'} (rw same h1) in
          (addr', rw (block, ok) ran, λ j. ground (arith, effect j))
    ]
  ]

  module _ (s : FileNodes Fs) (ino : ℕ) (b : NodeBlock) (i_addr i_nid : ℕ → ℕ)
      (at : s.nodes ino ≡ some b) (is_inode : b.node ≡ inode i_addr i_nid) where
    module _ (start_blk end_blk : ℕ) where
      pub direct_pointers :
          {fs' : Fs}
          → start_blk ≤ end_blk
          → end_blk < def_addrs_per_inode
          → invalidate_all invalidate_lpa
              (valid_addrs i_addr start_blk (end_blk + 1 - start_blk))
              s.fs
            ≡ some fs'
          → (addr' : ℕ → ℕ) × (proc_direct_pointers_in_inode invalidate_lpa release_node start_blk
                end_blk s ino
              ≡ some (set_node (record s { fs = fs' }) ino (record b { node = inode addr' i_nid })))
            × ((j : ℕ) → addr' j ≡ freed i_addr start_blk (end_blk + 1 - start_blk) j)
      unfolding proc_direct_pointers_in_inode intersect
      direct_pointers {fs'} ordered inside h =
          let (addr', ran, effect) =
            free_addrs-Frees i_addr start_blk (end_blk + 1 - start_blk) s.fs {fs' = fs'} h in
          let test : (ltb 931 start_blk || ltb end_blk 0) ≡ false =
            ground (arith, ordered, inside) in
          let lo : max 0 start_blk ≡ start_blk = omega arith in
          let hi : min 931 end_blk ≡ end_blk = omega (arith, inside) in
          (addr', rw (at, test, is_inode, lo, hi, ran) refl, effect)

      no_direct_pointers :
          def_addrs_per_inode ≤ start_blk
          → proc_direct_pointers_in_inode invalidate_lpa release_node start_blk end_blk s ino
            ≡ some s
      unfolding proc_direct_pointers_in_inode intersect
      no_direct_pointers above =
          let test : (ltb 931 start_blk || ltb end_blk 0) ≡ true = ground (arith, above) in
          rw (at, test) refl

      -- Entries that end before the range are skipped, all at the same start.
      proc_entries_skips :
          (proc_child : FileNodes Fs → ℕ → ℕ → Option (Bool × FileNodes Fs))
          (blks n nid i manage_start : ℕ)
          → manage_start + blks - 1 < start_blk
          → proc_entries invalidate_lpa release_node start_blk end_blk proc_child blks n s nid i
              manage_start
            ≡ some s
      unfolding proc_entries
      proc_entries_skips proc_child blks zero nid i manage_start early = refl
      proc_entries_skips proc_child blks (suc n) nid i manage_start early =
          let test : ltb (manage_start + blks - 1) start_blk ≡ true = ground (arith, early) in
          rw (proc_entries, test)
            (proc_entries_skips proc_child blks n nid (i + 1) manage_start early)

      slots_over :
          (proc_child : FileNodes Fs → ℕ → ℕ → Option (Bool × FileNodes Fs))
          (blks nid_idx cur_start : ℕ)
          → proc_slots invalidate_lpa release_node start_blk end_blk proc_child 0 blks s ino nid_idx
              cur_start
            ≡ some (some cur_start, s)
      unfolding proc_slots
      slots_over proc_child blks nid_idx cur_start = refl

      module _ (proc_child : FileNodes Fs → ℕ → ℕ → Option (Bool × FileNodes Fs))
          (n blks nid_idx cur_start : ℕ) where
        abbrev slots : Option (Option ℕ × FileNodes Fs)
        slots =
            proc_slots invalidate_lpa release_node start_blk end_blk proc_child (suc n) blks s ino
              nid_idx cur_start

        slots_skip :
            cur_start + blks - 1 < start_blk
            → slots
              ≡ proc_slots invalidate_lpa release_node start_blk end_blk proc_child n blks s ino
                  (nid_idx + 1)
                  cur_start
        unfolding proc_slots
        slots_skip early =
            let test : ltb (cur_start + blks - 1) start_blk ≡ true = ground (arith, early) in
            rw (proc_slots, test) refl

        slots_end : start_blk ≤ cur_start + blks - 1 → end_blk < cur_start → slots ≡ some (none, s)
        unfolding proc_slots
        slots_end reached ended =
            let test : ltb (cur_start + blks - 1) start_blk ≡ false = ground (arith, reached) in
            let last : ltb end_blk cur_start ≡ true = ground (arith, ended) in
            rw (proc_slots, test, last) refl

        slots_step :
            {s1 : FileNodes Fs}
            → start_blk ≤ cur_start + blks - 1
            → cur_start ≤ end_blk
            → proc_slot invalidate_lpa release_node start_blk end_blk proc_child s ino nid_idx
                cur_start
              ≡ some s1
            → slots
              ≡ proc_slots invalidate_lpa release_node start_blk end_blk proc_child n blks s1 ino
                  (nid_idx + 1)
                  (cur_start + blks)
        unfolding proc_slots
        slots_step reached inside ran =
            let test : ltb (cur_start + blks - 1) start_blk ≡ false = ground (arith, reached) in
            let last : ltb end_blk cur_start ≡ false = ground (arith, inside) in
            rw (proc_slots, test, last, ran) refl

      -- The first double node is read with the start of the first single node, and nothing is done in it.
      double_node_stays :
          {child : NodeBlock}
          → def_addrs_per_inode + single_node_blks ≤ start_blk
          → get_node_entry s (i_nid 2) b.ino ≡ some child
          → proc_slot invalidate_lpa release_node start_blk end_blk
              (proc_double_node invalidate_lpa release_node start_blk end_blk)
              s
              ino
              2
              def_addrs_per_inode
            ≡ some s
      unfolding proc_slot proc_indirect_node
      double_node_stays late found =
          let stays : leb start_blk 932 ≡ false = ground (arith, late) in
          let skipped =
            proc_entries_skips (proc_single_node invalidate_lpa release_node start_blk end_blk)
              single_node_blks nids_per_block (i_nid 2) 0 def_addrs_per_inode
              (omega (arith, late)) in
          rw (proc_slot, at, is_inode) (rw (found, skipped, stays) refl)

      -- Where the range starts after the first 932 + 1020 blocks and ends before the block 932 + 1020 * 1020,
      -- nothing is freed: no pointer changes, no address is invalidated and no node is released, if the first
      -- node block of double height exists.
      pub free_blocks_in_range-frees_nothing :
          {child : NodeBlock}
          → def_addrs_per_inode + single_node_blks ≤ start_blk
          → start_blk ≤ end_blk
          → end_blk < def_addrs_per_inode + double_node_blks
          → get_node_entry s (i_nid 2) b.ino ≡ some child
          → free_blocks_in_range invalidate_lpa release_node start_blk end_blk s ino ≡ some s
      unfolding free_blocks_in_range
      free_blocks_in_range-frees_nothing late ordered before found =
          let single = proc_single_node invalidate_lpa release_node start_blk end_blk in
          let double = proc_double_node invalidate_lpa release_node start_blk end_blk in
          let singles : proc_slots invalidate_lpa release_node start_blk end_blk single 2 1020 s ino
                0 932
              ≡ some (some 932, s) =
            slots_skip single 1 1020 0 932 (omega (arith, late))
            ∙ slots_skip single 0 1020 1 932 (omega (arith, late))
            ∙ slots_over single 1020 2 932 in
          let doubles : proc_slots invalidate_lpa release_node start_blk end_blk double 2
                (1020 * 1020) s ino 2 932
              ≡ some (none, s) =
            slots_step double 1 (1020 * 1020) 2 932 (omega (arith, ordered, before))
              (omega (arith, ordered, late)) (double_node_stays late found)
            ∙ slots_end double 0 (1020 * 1020) 3 (932 + 1020 * 1020)
                (omega (arith, ordered, before)) before in
          rw (no_direct_pointers (omega (arith, late)), singles, doubles) refl
