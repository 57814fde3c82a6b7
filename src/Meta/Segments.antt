-- ===== src/Meta/Segments.antt =====
-- The allocation of segments and blocks, and the lists of written segments (`super_manager` of
-- src/fs/super_manager.cc, inc/fs/super_manager.hh). A `lpa_alloc_context` holds references to the
-- fields of the super block; here it names which fields they are.
use hscfs.Base.{
  ℕ, ◌+◌, ◌-◌, ◌%◌, ◌^◌, List, [], ◌∷◌, ◌++◌, Option, ◌==◌, if◌then◌else◌, put, nat_key, guard,
}
use hscfs.Base.Outcome
use hscfs.Base.Outcome.{Outcome, done, thrown, no_free_segment, ◌>>=◌}
use hscfs.Fs.{block_per_segment}
use hscfs.Journal
use hscfs.SitNatCache
use hscfs.SitNatCache.{set_entry}
use hscfs.SitNatCache.Coherence.{block_of}
use hscfs.Meta.{
  Meta, SitBlock, log_super, on_sit, off_first_free_segment_id, off_first_data_segment_id,
  off_first_node_segment_id, off_current_data_segment_id, off_current_data_segment_blkoff,
  off_current_node_segment_id, off_current_node_segment_blkoff, off_free_segment_count,
}
use hscfs.Meta.Sit.{
  get_next_seg, get_sit_vblocks, set_next_seg, get_segid_pos_in_sit, get_first_lpa_of_segid,
  validate_lpa,
}

pub data LpaAllocType : Type 0 where
  node data_ : LpaAllocType

-- The fields that a context refers to.
abbrev pub cur_seg_id : LpaAllocType → Meta → ℕ
cur_seg_id node s = s.super.current_node_segment_id
cur_seg_id data_ s = s.super.current_data_segment_id

abbrev pub cur_seg_off : LpaAllocType → Meta → ℕ
cur_seg_off node s = s.super.current_node_segment_blkoff
cur_seg_off data_ s = s.super.current_data_segment_blkoff

abbrev pub uncommit_segs : LpaAllocType → Meta → List ℕ
uncommit_segs node s = s.uncommit_node_segs
uncommit_segs data_ s = s.uncommit_data_segs

abbrev pub seg_id_addr_offset : LpaAllocType → ℕ
seg_id_addr_offset node = off_current_node_segment_id
seg_id_addr_offset data_ = off_current_data_segment_id

abbrev pub seg_off_addr_offset : LpaAllocType → ℕ
seg_off_addr_offset node = off_current_node_segment_blkoff
seg_off_addr_offset data_ = off_current_data_segment_blkoff

abbrev pub set_cur_seg_id : LpaAllocType → Meta → ℕ → Meta
set_cur_seg_id node s id = record s { super = record (s.super) { current_node_segment_id = id } }
set_cur_seg_id data_ s id = record s { super = record (s.super) { current_data_segment_id = id } }

abbrev pub set_cur_seg_off : LpaAllocType → Meta → ℕ → Meta
set_cur_seg_off node s off = record s {
  super = record (s.super) { current_node_segment_blkoff = off };
}
set_cur_seg_off data_ s off = record s {
  super = record (s.super) { current_data_segment_blkoff = off };
}

abbrev pub add_uncommit : LpaAllocType → Meta → ℕ → Meta
add_uncommit node s id = record s { uncommit_node_segs = s.uncommit_node_segs ++ id ∷ [] }
add_uncommit data_ s id = record s { uncommit_data_segs = s.uncommit_data_segs ++ id ∷ [] }

unfoldable pub get_and_clear_uncommit_node_segs : Meta → List ℕ × Meta
get_and_clear_uncommit_node_segs s = (s.uncommit_node_segs, record s { uncommit_node_segs = [] })

unfoldable pub get_and_clear_uncommit_data_segs : Meta → List ℕ × Meta
get_and_clear_uncommit_data_segs s = (s.uncommit_data_segs, record s { uncommit_data_segs = [] })

-- The head of the free list is taken off it.
abbrev pub take_free : Meta → ℕ → Meta
take_free s next =
    let count = s.super.free_segment_count - 1 in
    let s1 = record s {
      super = record (s.super) { first_free_segment_id = next; free_segment_count = count };
    } in
    log_super (log_super s1 off_first_free_segment_id next) off_free_segment_count count

module _ (read : ℕ → Option SitBlock) where
  unfoldable pub alloc_segment : Meta → Outcome Meta ℕ
  alloc_segment s =
      if s.super.free_segment_count == 0
      then thrown no_free_segment s
      else (let segid = s.super.first_free_segment_id in
          Outcome.step (get_segid_pos_in_sit s.super segid) λ (lpa, idx).
            on_sit s (SitNatCache.get read s.sit_cache lpa) λ (h, s1).
              Outcome.step (block_of s1.sit_cache h) λ block.
                Outcome.step (guard (get_sit_vblocks (block idx) == 0)) λ _.
                  Outcome.step (SitNatCache.put_cache_entry s1.sit_cache h) λ c.
                    done segid (record (take_free s1 (get_next_seg (block idx))) { sit_cache = c }))

  -- The block of the SIT is written, but the handle ends with no new host version.
  unfoldable pub add_seg_to_list : Meta → ℕ → ℕ → ℕ → (Meta → ℕ → Meta) → Outcome Meta (Unit {0})
  add_seg_to_list s segid list_head_segid list_head_addr_off set_head =
      Outcome.step (get_segid_pos_in_sit s.super segid) λ (lpa, idx).
        on_sit s (SitNatCache.get read s.sit_cache lpa) λ (h, s1).
          Outcome.step (block_of s1.sit_cache h) λ block.
            let entry = set_next_seg (block idx) list_head_segid in
            Outcome.step (s1.sit_cache.manager.index h) λ p.
              Outcome.step
                (SitNatCache.put_cache_entry
                  (set_entry s1.sit_cache h (record p { cache = put block idx entry })) h)
                λ c.
                  let s2 = log_super (set_head s1 segid) list_head_addr_off segid in
                  done tt (record s2 {
                    journal =
                        Journal.append_sit_journal_entry s2.journal
                          (record { seg_id = segid; new_value = entry });
                    sit_cache = c;
                  })

  unfoldable pub add_to_node_segment_list : Meta → ℕ → Outcome Meta (Unit {0})
  add_to_node_segment_list s segid =
      add_seg_to_list s segid s.super.first_node_segment_id off_first_node_segment_id
        λ t id. record t { super = record (t.super) { first_node_segment_id = id } }

  unfoldable pub add_to_data_segment_list : Meta → ℕ → Outcome Meta (Unit {0})
  add_to_data_segment_list s segid =
      add_seg_to_list s segid s.super.first_data_segment_id off_first_data_segment_id
        λ t id. record t { super = record (t.super) { first_data_segment_id = id } }

  -- A full segment is replaced by a new one, which may throw after it joined the uncommitted list.
  unfoldable pub open_segment : LpaAllocType → Meta → Outcome Meta (Unit {0})
  open_segment ty s =
      if cur_seg_off ty s == block_per_segment
      then (alloc_segment (add_uncommit ty s (cur_seg_id ty s)) >>= λ (new_segid, s1). done tt (
          log_super (set_cur_seg_off ty (set_cur_seg_id ty s1 new_segid) 0) (seg_id_addr_offset ty)
            new_segid))
      else done tt s

  unfoldable pub take_block : LpaAllocType → Meta → Outcome Meta ℕ
  take_block ty s =
      let lpa = (get_first_lpa_of_segid s.super (cur_seg_id ty s) + cur_seg_off ty s) % 2 ^ 32 in
      let off = (cur_seg_off ty s + 1) % 2 ^ 32 in
      validate_lpa read (log_super (set_cur_seg_off ty s off) (seg_off_addr_offset ty) off) lpa
      >>= λ (_, s1). done lpa s1

  unfoldable pub alloc_lpa_inner : LpaAllocType → Meta → Outcome Meta ℕ
  alloc_lpa_inner ty s = open_segment ty s >>= λ (_, s1). take_block ty s1

  abbrev pub alloc_node_lpa : Meta → Outcome Meta ℕ
  alloc_node_lpa s = alloc_lpa_inner node s

  abbrev pub alloc_data_lpa : Meta → Outcome Meta ℕ
  alloc_data_lpa s = alloc_lpa_inner data_ s
