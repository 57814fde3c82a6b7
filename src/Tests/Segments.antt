-- ===== src/Tests/Segments.antt =====
-- The allocation of segments and blocks.
use hscfs.Base.{◌+◌, ◌*◌, ◌≡◌, ◌≢◌, refl, true, false, some, nat_key, arith}
use hscfs.Base.Outcome.{done}
use hscfs.Fs.{SitEntry, invalid_lpa}
use hscfs.CacheManager
use hscfs.SitNatCache
use hscfs.SitNatCache.{SitNatCache}
use hscfs.Meta.{Meta, SitBlock}
use hscfs.Meta.Sit.{get_first_lpa_of_segid}
use hscfs.Meta.SitLaws as SitLaws
use hscfs.Meta.Segments.{data_, cur_seg_off, alloc_lpa_inner}
use hscfs.Meta.SegmentLaws as SegmentLaws
use hscfs.Tests.Data.{sit_block, read_sit, state, init-IsCoherent}

-- Segments.
abbrev free_segments : SitBlock
free_segments segid = record { vblocks = 512 * (segid + 1); valid_map = λ byte bit. false }

segment_ready : SegmentLaws.IsReady (λ l. some free_segments) state 3 free_segments
unfolding SitNatCache.init CacheManager.empty
segment_ready = record {
  in_table = omega arith;
  coherent = init-IsCoherent (λ l. some free_segments);
  room = record { entries = omega arith; references = omega arith };
  here = refl;
}

block_ready :
    SitLaws.IsReady read_sit
      (SegmentLaws.advanced data_ state)
      (SegmentLaws.next_block data_ state)
      sit_block
unfolding SitNatCache.init CacheManager.empty
block_ready = record {
  coherent = init-IsCoherent read_sit;
  room = record { entries = omega arith; references = omega arith };
  here = refl;
  word = omega arith;
}

next_block_real : SegmentLaws.next_block data_ state ≢ invalid_lpa
unfolding get_first_lpa_of_segid
next_block_real e = ground arith

alloc_lpa_inner-Takes_example :
    (s' : Meta) × (entry : SitEntry) × (alloc_lpa_inner read_sit data_ state
      ≡ done (SegmentLaws.next_block data_ state) s')
    × (cur_seg_off data_ s' ≡ 1)
    × SitLaws.Changes read_sit
        (SegmentLaws.advanced data_ state)
        s'
        (SegmentLaws.next_block data_ state)
        sit_block
        true
        entry
alloc_lpa_inner-Takes_example =
    SegmentLaws.alloc_lpa_inner-Takes read_sit data_ state sit_block (omega arith) next_block_real
      block_ready refl
