-- ===== src/Meta/SegmentLaws.antt =====
-- The allocation of segments, against the SIT as the cache and the device hold it together.
use hscfs.Base.{
  ℕ, ◌+◌, ◌-◌, ◌*◌, ◌/◌, ◌%◌, ◌^◌, ◌<◌, ◌≡◌, ◌≢◌, refl, true, false, Option, some, nat_key, arith,
  ==_ne,
}
use hscfs.Base.Outcome.{done}
use hscfs.Fs.{SitEntry, invalid_lpa, sit_entry_per_block, block_per_segment}
use hscfs.Journal
use hscfs.SitNatCache.Coherence.{IsCoherent, HasRoom, view, look-view}
use hscfs.Meta.{Meta, SitBlock, log_super, off_first_free_segment_id, off_free_segment_count}
use hscfs.Meta.Sit.{get_next_seg, get_sit_vblocks, get_segid_pos_in_sit, get_first_lpa_of_segid}
use hscfs.Meta.SitLaws
use hscfs.Meta.Segments.{
  alloc_segment, take_free, LpaAllocType, node, data_, cur_seg_id, cur_seg_off, set_cur_seg_off,
  seg_off_addr_offset, open_segment, take_block, alloc_lpa_inner,
}

abbrev pub seg_lpa : Meta → ℕ → ℕ
seg_lpa s segid = (s.super.sit_blkaddr + segid / sit_entry_per_block) % 2 ^ 32

abbrev pub seg_idx : ℕ → ℕ
seg_idx segid = segid % sit_entry_per_block

pub record IsReady (read : ℕ → Option SitBlock) (s : Meta) (segid : ℕ) (block : SitBlock)
    : Type 0 where
  pub in_table :
      segid / sit_entry_per_block < (s.super.segment_count_sit * block_per_segment) % 2 ^ 32
  pub coherent : IsCoherent read s.sit_cache
  pub room : HasRoom read s.sit_cache (seg_lpa s segid)
  pub here : view read s.sit_cache (seg_lpa s segid) ≡ some block

segid_pos_lem :
    (read : ℕ → Option SitBlock) (s : Meta) (segid : ℕ) (block : SitBlock)
    → IsReady read s segid block
    → get_segid_pos_in_sit s.super segid ≡ some (seg_lpa s segid, seg_idx segid)
unfolding get_segid_pos_in_sit
segid_pos_lem read s segid block ready = ground (arith, ready.in_table)

-- Where there is a free segment, its block of the SIT can be had, the counters have room and the
-- segment's entry counts no valid block, the head of the free list is allocated: the list goes on with
-- the segment that the entry names, the count of free segments shrinks by one, both are journalled in
-- this order, and no block of the SIT changes.
pub alloc_segment-Takes :
    (read : ℕ → Option SitBlock) (s : Meta) (block : SitBlock)
    → IsReady read s s.super.first_free_segment_id block
    → s.super.free_segment_count ≢ 0
    → get_sit_vblocks (block (seg_idx s.super.first_free_segment_id)) ≡ 0
    → (s' : Meta) × (alloc_segment read s ≡ done s.super.first_free_segment_id s')
      × (s'.super ≡ record (s.super) {
        first_free_segment_id = get_next_seg (block (seg_idx s.super.first_free_segment_id));
        free_segment_count = s.super.free_segment_count - 1;
      })
      × (s'.journal
          ≡ Journal.append_super_block_journal_entry
              (Journal.append_super_block_journal_entry s.journal (record {
                off = off_first_free_segment_id;
                new_val = get_next_seg (block (seg_idx s.super.first_free_segment_id));
              }))
              (record { off = off_free_segment_count; new_val = s.super.free_segment_count - 1 }))
      × IsCoherent read s'.sit_cache
      × ((j : ℕ) → view read s'.sit_cache j ≡ view read s.sit_cache j)
unfolding alloc_segment
alloc_segment-Takes read s block ready some_free unused =
    let segid = s.super.first_free_segment_id in
    let (c1, c2, p, got, cached, content, dropped, coherent, same) =
      look-view read s.sit_cache (seg_lpa s segid) block ready.coherent ready.room ready.here in
    (
      record (take_free s (get_next_seg (block (seg_idx segid)))) { sit_cache = c2 },
      rw (==_ne s.super.free_segment_count 0 some_free) (
          rw (segid_pos_lem read s segid block ready)
            (rw got (rw cached (rw content (rw unused (rw dropped refl)))))),
      refl,
      refl,
      coherent,
      same,
    )

next_off :
    (ty : LpaAllocType) (s : Meta)
    → cur_seg_off ty s < block_per_segment
    → (cur_seg_off ty s + 1) % 2 ^ 32 ≡ cur_seg_off ty s + 1
next_off ty s small = omega arith

-- The block that the active segment gives next, and the metadata once its place is journalled.
abbrev pub next_block : LpaAllocType → Meta → ℕ
next_block ty s = (get_first_lpa_of_segid s.super (cur_seg_id ty s) + cur_seg_off ty s) % 2 ^ 32

abbrev pub advanced : LpaAllocType → Meta → Meta
advanced ty s =
    log_super (set_cur_seg_off ty s (cur_seg_off ty s + 1)) (seg_off_addr_offset ty)
      (cur_seg_off ty s + 1)

-- Where the active segment is not full, the next block is a real one that the SIT has as invalid, its
-- block of the SIT can be had and the counters have room, the next block is allocated: the place in
-- the segment moves on by one and is journalled, and then the block is marked as valid.
pub alloc_lpa_inner-Takes :
    (read : ℕ → Option SitBlock) (ty : LpaAllocType) (s : Meta) (block : SitBlock)
    → cur_seg_off ty s < block_per_segment
    → next_block ty s ≢ invalid_lpa
    → SitLaws.IsReady read (advanced ty s) (next_block ty s) block
    → SitLaws.is_valid_block
        (block (SitLaws.sit_idx (advanced ty s) (next_block ty s)))
        (SitLaws.lpa_off (advanced ty s) (next_block ty s))
      ≡ false
    → (s' : Meta) × (entry : SitEntry) × (alloc_lpa_inner read ty s ≡ done (next_block ty s) s')
      × (cur_seg_off ty s' ≡ cur_seg_off ty s + 1)
      × SitLaws.Changes read (advanced ty s) s' (next_block ty s) block true entry
unfolding alloc_lpa_inner open_segment take_block
alloc_lpa_inner-Takes read node s block small real ready bit =
    let (s', entry, ran, ch) =
      SitLaws.change_lpa_state-Changes read (advanced node s) (next_block node s) true block real
        ready bit in
    (
      s',
      entry,
      rw (==_ne (cur_seg_off node s) 512 (λ e. ground arith), next_off node s small) (rw ran refl),
      rw (cur_seg_off, ch.super) refl,
      ch,
    )
alloc_lpa_inner-Takes read data_ s block small real ready bit =
    let (s', entry, ran, ch) =
      SitLaws.change_lpa_state-Changes read (advanced data_ s) (next_block data_ s) true block real
        ready bit in
    (
      s',
      entry,
      rw (==_ne (cur_seg_off data_ s) 512 (λ e. ground arith), next_off data_ s small)
          (rw ran refl),
      rw (cur_seg_off, ch.super) refl,
      ch,
    )
