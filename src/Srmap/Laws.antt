-- ===== src/Srmap/Laws.antt =====
-- The reverse map as the cache and the device hold it together.
use hscfs.Base.{
  ℕ, ◌<◌, ◌≡◌, ◌≢◌, ◌⊎◌, inl, inr, refl, ◌∷◌, Option, none, some, ltb, if◌then◌else◌, put, nat_key,
  count, arith, Option-cases,
}
use hscfs.Base.Outcome.{done, thrown, io_error}
use hscfs.Srmap.{
  Summary, SummaryBlock, SrmapUtils, get_srmap_pos_of_lpa, fetched, cached_or, get_srmap_blk,
  write_srmap_of_data, entry_of,
}

-- The block of the map, cached or on the device.
abbrev pub block_of : (ℕ → Option SummaryBlock) → SrmapUtils → ℕ → Option SummaryBlock
block_of read s lpa = elim (s.srmap_cache lpa) [ some b ↦ some b | none ↦ read lpa ]

-- One entry is written: it reads back, its block is to be written to the device, and all other entries
-- and blocks to be written stay.
pub record Writes (read : ℕ → Option SummaryBlock) (s s' : SrmapUtils) (lpa idx : ℕ)
    (entry : Summary) : Type 0 where
  pub here : entry_of read s' lpa idx ≡ some entry
  pub others : (l i : ℕ) → (l ≢ lpa) ⊎ (i ≢ idx) → entry_of read s' l i ≡ entry_of read s l i
  pub dirty : 0 < count lpa s'.dirty_blks
  pub rest : (l : ℕ) → l ≢ lpa → count l s'.dirty_blks ≡ count l s.dirty_blks

module _ (read : ℕ → Option SummaryBlock) (initial : SummaryBlock) (s : SrmapUtils)
    (b : SummaryBlock) where
  written : (ℕ → Option SummaryBlock) → ℕ → ℕ → ℕ → ℕ → SrmapUtils
  written f lpa idx ino blkoff = record s {
    srmap_cache = put f lpa (some (put b idx (record { nid = ino; ofs_in_node = blkoff })));
    dirty_blks = if ltb 0 (count lpa s.dirty_blks) then s.dirty_blks else lpa ∷ s.dirty_blks;
  }

  written-Writes :
      (f : ℕ → Option SummaryBlock) (lpa idx ino blkoff : ℕ)
      → ((l : ℕ) → block_of read (record s { srmap_cache = f }) l ≡ block_of read s l)
      → block_of read s lpa ≡ some b
      → Writes read s
          (written f lpa idx ino blkoff)
          lpa
          idx
          (record { nid = ino; ofs_in_node = blkoff })
  unfolding written
  written-Writes f lpa idx ino blkoff same here = record {
    here = ground arith;
    others = λ l i ne. ground (arith, same l, here, ne);
    dirty = ground arith;
    rest = λ l ne. ground arith;
  }

  -- Where the block of the map can be had, the owner of a data block is recorded in its entry, and no
  -- other entry changes; the map's block is to be written to the device, and the others that were are
  -- still.
  pub write_srmap_of_data-Writes :
      (data_lpa ino blkoff : ℕ)
      → block_of read s (get_srmap_pos_of_lpa s data_lpa).0 ≡ some b
      → (s' : SrmapUtils) × (write_srmap_of_data read initial s data_lpa ino blkoff ≡ done tt s')
        × Writes read s s'
            (get_srmap_pos_of_lpa s data_lpa).0
            (get_srmap_pos_of_lpa s data_lpa).1
            (record { nid = ino; ofs_in_node = blkoff })
  unfolding write_srmap_of_data fetched cached_or written
  write_srmap_of_data-Writes data_lpa ino blkoff here =
      let lpa = (get_srmap_pos_of_lpa s data_lpa).0 in
      let idx = (get_srmap_pos_of_lpa s data_lpa).1 in
      elim (Option-cases (s.srmap_cache lpa)) [
        | inr (c, hit) ↦ (
          written s.srmap_cache lpa idx ino blkoff,
          ground (arith, hit),
          written-Writes s.srmap_cache lpa idx ino blkoff (λ l. refl) here,
        )
        | inl miss ↦
            let f = put s.srmap_cache lpa (some b) in
            (
              written f lpa idx ino blkoff,
              ground (arith, miss),
              written-Writes f lpa idx ino blkoff (λ l. ground (arith, miss)) here,
            )
      ]

-- A read that fails leaves the buffer of the block in the cache: the next access takes what the buffer
-- held when it was allocated for the block, whatever the device would give by then.
pub get_srmap_blk_unread :
    (read later : ℕ → Option SummaryBlock) (initial : SummaryBlock) (s : SrmapUtils) (lpa : ℕ)
    → s.srmap_cache lpa ≡ none
    → read lpa ≡ none
    → (s' : SrmapUtils) × (get_srmap_blk read initial s lpa ≡ thrown io_error s')
      × (get_srmap_blk later initial s' lpa ≡ done initial s')
unfolding fetched cached_or
get_srmap_blk_unread read later initial s lpa miss fails = (
  record s { srmap_cache = put s.srmap_cache lpa (some initial) },
  ground (arith, miss, fails),
  ground arith,
)
