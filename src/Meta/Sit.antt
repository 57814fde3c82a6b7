-- ===== src/Meta/Sit.antt =====
-- `SIT_operator` (src/fs/SIT_utils.cc, inc/fs/SIT_utils.hh): the validity of the blocks of the main
-- area, and the word of a SIT entry that holds its counter and the next segment of its list
-- (inc/fs/fs.h).
use hscfs.Base.{
  ℕ, ◌+◌, ◌-◌, ◌*◌, ◌/◌, ◌%◌, ◌^◌, Bool, true, false, Option, none, some, ltb, ◌==◌, if◌then◌else◌,
  put, nat_key, max, suc, zero,
}
use hscfs.Base.Outcome
use hscfs.Base.Outcome.{Outcome, done}
use hscfs.Fs.{SitEntry, sit_entry_per_block, block_per_segment, invalid_lpa}
use hscfs.Journal
use hscfs.SitNatCache
use hscfs.SitNatCache.Coherence.{block_of, commit_block}
use hscfs.Meta.{Meta, SuperBlock, SitBlock, on_sit}

-- GET_SIT_VBLOCKS and GET_NEXT_SEG: the low nine bits of the word, and the others.
unfoldable pub get_sit_vblocks : SitEntry → ℕ
get_sit_vblocks entry = entry.vblocks % 512

unfoldable pub get_next_seg : SitEntry → ℕ
get_next_seg entry = entry.vblocks / 512

-- The disjunction of the lowest bits of two words.
unfoldable pub bit_or : ℕ → ℕ → ℕ → ℕ
bit_or zero a b = 0
bit_or (suc bits) a b = max (a % 2) (b % 2) + 2 * bit_or bits (a / 2) (b / 2)

-- SET_NEXT_SEG: the bits of the next segment are added to those that the word has.
unfoldable pub set_next_seg : SitEntry → ℕ → SitEntry
set_next_seg entry next_seg = record entry {
  vblocks = bit_or 32 entry.vblocks ((next_seg * 2 ^ 9) % 2 ^ 32);
}

unfoldable pub seg0_offset : SuperBlock → ℕ → ℕ
seg0_offset super lpa = (lpa + 2 ^ 32 - super.segment0_blkaddr) % 2 ^ 32

unfoldable pub get_seg_pos_of_lpa : SuperBlock → ℕ → ℕ × ℕ
get_seg_pos_of_lpa super lpa =
    let off = seg0_offset super lpa in (off / block_per_segment, off % block_per_segment)

unfoldable pub get_segid_pos_in_sit : SuperBlock → ℕ → Option (ℕ × ℕ)
get_segid_pos_in_sit super segid =
    let sit_lpa_idx = segid / sit_entry_per_block in
    if ltb sit_lpa_idx ((super.segment_count_sit * block_per_segment) % 2 ^ 32)
    then some ((super.sit_blkaddr + sit_lpa_idx) % 2 ^ 32, segid % sit_entry_per_block)
    else none

unfoldable pub get_first_lpa_of_segid : SuperBlock → ℕ → ℕ
get_first_lpa_of_segid super segid = (super.segment0_blkaddr + segid * block_per_segment) % 2 ^ 32

-- The change of an entry; the assertion guards a block that already has the state. The counter's nine
-- bits end at 511.
unfoldable pub validate_entry : SitEntry → ℕ → Option SitEntry
validate_entry entry segoff =
    let idx = segoff / 8 in
    let off = segoff % 8 in
    if entry.valid_map idx off
    then none
    else some (record {
      valid_map = put entry.valid_map idx (put (entry.valid_map idx) off true);
      vblocks =
          if ltb (get_sit_vblocks entry) 511 then (entry.vblocks + 1) % 2 ^ 32 else entry.vblocks;
    })

unfoldable pub invalidate_entry : SitEntry → ℕ → Option SitEntry
invalidate_entry entry segoff =
    let idx = segoff / 8 in
    let off = segoff % 8 in
    if entry.valid_map idx off
    then some (record {
      valid_map = put entry.valid_map idx (put (entry.valid_map idx) off false);
      vblocks =
          if ltb 0 (get_sit_vblocks entry)
          then (entry.vblocks + 2 ^ 32 - 1) % 2 ^ 32
          else entry.vblocks;
    })
    else none

unfoldable pub change_entry : Bool → SitEntry → ℕ → Option SitEntry
change_entry valid entry segoff =
    if valid then validate_entry entry segoff else invalidate_entry entry segoff

module _ (read : ℕ → Option SitBlock) where
  unfoldable pub change_lpa_state : Meta → ℕ → Bool → Outcome Meta (Unit {0})
  change_lpa_state s lpa valid =
      if lpa == invalid_lpa
      then done tt s
      else (let off = seg0_offset s.super lpa in
          let segid = off / block_per_segment in
          let segoff = off % block_per_segment in
          let sit_lpa = (s.super.sit_blkaddr + segid / sit_entry_per_block) % 2 ^ 32 in
          on_sit s (SitNatCache.get read s.sit_cache sit_lpa) λ (h, s1).
            Outcome.step (block_of s1.sit_cache h) λ block.
              Outcome.step (change_entry valid (block (segid % sit_entry_per_block)) segoff)
                λ entry.
                  Outcome.step
                    (commit_block s1.sit_cache h (put block (segid % sit_entry_per_block) entry))
                    λ c. done tt (record s1 {
                      journal =
                          Journal.append_sit_journal_entry s1.journal
                            (record { seg_id = segid; new_value = entry });
                      sit_cache = c;
                    }))

  abbrev pub validate_lpa : Meta → ℕ → Outcome Meta (Unit {0})
  validate_lpa s lpa = change_lpa_state s lpa true

  abbrev pub invalidate_lpa : Meta → ℕ → Outcome Meta (Unit {0})
  invalidate_lpa s lpa = change_lpa_state s lpa false
