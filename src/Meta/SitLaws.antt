-- ===== src/Meta/SitLaws.antt =====
-- The validity of blocks, against the SIT as the cache and the device hold it together.
use hscfs.Base.{
  ℕ, ◌+◌, ◌-◌, ◌*◌, ◌/◌, ◌%◌, ◌^◌, ◌<◌, ◌≡◌, ◌≢◌, refl, Bool, true, false, not, Option, some, ltb,
  if◌then◌else◌, put, nat_key, arith, min, ==_ne,
}
use hscfs.Base.Outcome.{done}
use hscfs.Fs.{SitEntry, sit_entry_per_block, block_per_segment, invalid_lpa}
use hscfs.Journal
use hscfs.SitNatCache.Coherence.{IsCoherent, HasRoom, view, count_of}
use hscfs.SitNatCache.Update.{update-view}
use hscfs.Meta.{Meta, SuperBlock, SitBlock}
use hscfs.Meta.Sit.{
  get_sit_vblocks, get_next_seg, seg0_offset, get_seg_pos_of_lpa, get_first_lpa_of_segid,
  validate_entry, invalidate_entry, change_entry, change_lpa_state,
}

abbrev pub lpa_seg : Meta → ℕ → ℕ
lpa_seg s lpa = seg0_offset s.super lpa / block_per_segment

abbrev pub lpa_off : Meta → ℕ → ℕ
lpa_off s lpa = seg0_offset s.super lpa % block_per_segment

abbrev pub sit_lpa : Meta → ℕ → ℕ
sit_lpa s lpa = (s.super.sit_blkaddr + lpa_seg s lpa / sit_entry_per_block) % 2 ^ 32

abbrev pub sit_idx : Meta → ℕ → ℕ
sit_idx s lpa = lpa_seg s lpa % sit_entry_per_block

-- The bit of a block in the map of its segment.
abbrev pub is_valid_block : SitEntry → ℕ → Bool
is_valid_block entry segoff = entry.valid_map (segoff / 8) (segoff % 8)

-- The entry after a change: only the block's bit differs, the counter has moved by one and stays
-- within its nine bits, and the next segment is the same.
pub record Marks (entry entry' : SitEntry) (segoff : ℕ) (valid : Bool) : Type 0 where
  pub here : is_valid_block entry' segoff ≡ valid
  pub others : (k : ℕ) → k ≢ segoff → is_valid_block entry' k ≡ is_valid_block entry k
  pub counter :
      get_sit_vblocks entry'
      ≡ (if valid then min 511 (get_sit_vblocks entry + 1) else get_sit_vblocks entry - 1)
  pub next_seg : get_next_seg entry' ≡ get_next_seg entry

abbrev validated : SitEntry → ℕ → SitEntry
validated entry segoff = record {
  valid_map =
      put entry.valid_map (segoff / 8) (put (entry.valid_map (segoff / 8)) (segoff % 8) true);
  vblocks = if ltb (get_sit_vblocks entry) 511 then (entry.vblocks + 1) % 2 ^ 32 else entry.vblocks;
}

abbrev invalidated : SitEntry → ℕ → SitEntry
invalidated entry segoff = record {
  valid_map =
      put entry.valid_map (segoff / 8) (put (entry.valid_map (segoff / 8)) (segoff % 8) false);
  vblocks =
      if ltb 0 (get_sit_vblocks entry)
      then (entry.vblocks + 2 ^ 32 - 1) % 2 ^ 32
      else entry.vblocks;
}

pub change_entry-Marks :
    (valid : Bool) (entry : SitEntry) (segoff : ℕ)
    → entry.vblocks < 2 ^ 32
    → is_valid_block entry segoff ≡ not valid
    → (entry' : SitEntry) × (change_entry valid entry segoff ≡ some entry')
      × Marks entry entry' segoff valid
unfolding change_entry validate_entry invalidate_entry get_sit_vblocks get_next_seg
change_entry-Marks true entry segoff word free = (
  validated entry segoff,
  ground (arith, free),
  record {
    here = ground arith;
    others = λ k ne. ground arith;
    counter = ground (arith, word);
    next_seg = ground (arith, word);
  },
)
change_entry-Marks false entry segoff word used = (
  invalidated entry segoff,
  ground (arith, used),
  record {
    here = ground arith;
    others = λ k ne. ground arith;
    counter = ground (arith, word);
    next_seg = ground (arith, word);
  },
)

pub record IsReady (read : ℕ → Option SitBlock) (s : Meta) (lpa : ℕ) (block : SitBlock)
    : Type 0 where
  pub coherent : IsCoherent read s.sit_cache
  pub room : HasRoom read s.sit_cache (sit_lpa s lpa)
  pub here : view read s.sit_cache (sit_lpa s lpa) ≡ some block
  pub word : (block (sit_idx s lpa)).vblocks < 2 ^ 32

-- The SIT entry of the block's segment is marked, every other entry stays, the new entry is journalled,
-- and the block of the table has one reference more.
pub record Changes (read : ℕ → Option SitBlock) (s s' : Meta) (lpa : ℕ) (block : SitBlock)
    (valid : Bool) (entry : SitEntry) : Type 0 where
  pub coherent : IsCoherent read s'.sit_cache
  pub marks : Marks (block (sit_idx s lpa)) entry (lpa_off s lpa) valid
  pub table :
      (j : ℕ)
      → view read s'.sit_cache j
        ≡ put (view read s.sit_cache) (sit_lpa s lpa) (some (put block (sit_idx s lpa) entry)) j
  pub counted :
      count_of read s'.sit_cache (sit_lpa s lpa) ≡ count_of read s.sit_cache (sit_lpa s lpa) + 1
  pub super : s'.super ≡ s.super
  pub journal :
      s'.journal
      ≡ Journal.append_sit_journal_entry s.journal
          (record { seg_id = lpa_seg s lpa; new_value = entry })

-- A block whose bit has the other state is marked, where its block of the SIT can be had and the
-- counters have room: its bit alone changes, the counter moves by one within 0 and 511, the next segment
-- of the list stays, no other entry changes, the new entry is journalled, and the block of the SIT has
-- one reference more.
pub change_lpa_state-Changes :
    (read : ℕ → Option SitBlock) (s : Meta) (lpa : ℕ) (valid : Bool) (block : SitBlock)
    → lpa ≢ invalid_lpa
    → IsReady read s lpa block
    → is_valid_block (block (sit_idx s lpa)) (lpa_off s lpa) ≡ not valid
    → (s' : Meta) × (entry : SitEntry) × (change_lpa_state read s lpa valid ≡ done tt s')
      × Changes read s s' lpa block valid entry
unfolding change_lpa_state
change_lpa_state-Changes read s lpa valid block real ready bit =
    let (entry, changed, marks) =
      change_entry-Marks valid (block (sit_idx s lpa)) (lpa_off s lpa) ready.word bit in
    let (c1, c2, p, got, cached, content, committed, coherent, table, counted) =
      update-view read s.sit_cache (sit_lpa s lpa) block (put block (sit_idx s lpa) entry)
        ready.coherent ready.room ready.here in
    (
      record s {
        sit_cache = c2;
        journal =
            Journal.append_sit_journal_entry s.journal
              (record { seg_id = lpa_seg s lpa; new_value = entry });
      },
      entry,
      rw (==_ne lpa 0 real) (rw got (rw cached (rw content (rw changed (rw committed refl))))),
      record {
        coherent = coherent;
        marks = marks;
        table = table;
        counted = counted;
        super = refl;
        journal = refl;
      },
    )

-- Where the addresses fit into words, the block at an offset from the first block of a segment has the
-- position of that segment and that offset.
pub get_seg_pos_of_lpa-get_first_lpa_of_segid :
    (super : SuperBlock) (segid off : ℕ)
    → off < block_per_segment
    → super.segment0_blkaddr + segid * block_per_segment + off < 2 ^ 32
    → get_seg_pos_of_lpa super (get_first_lpa_of_segid super segid + off) ≡ (segid, off)
unfolding get_seg_pos_of_lpa get_first_lpa_of_segid seg0_offset
get_seg_pos_of_lpa-get_first_lpa_of_segid super segid off small fits =
    let here : seg0_offset super (get_first_lpa_of_segid super segid + off)
        ≡ segid * block_per_segment + off =
      omega (arith, small, fits) in
    rw here (ground arith)
