-- ===== src/Meta.antt =====
-- The file system's metadata: the super block, the NAT and SIT caches and the journal of the current
-- transaction, as `file_system_manager` holds them for the utilities of src/fs/NAT_utils.cc,
-- src/fs/SIT_utils.cc and src/fs/super_manager.cc. The devices' blocks are parameters.
pub mod Nat
pub mod NatLaws
pub mod FreeIds
pub mod Sit
pub mod SitLaws
pub mod Segments
pub mod SegmentLaws
use hscfs.Base.{ℕ, List, ◌==◌, if◌then◌else◌}
use hscfs.Base.Outcome.{Outcome, done, thrown, aborted}
use hscfs.Fs.{NatEntry, SitEntry}
use hscfs.Journal.{JournalContainer, SuperBlockJournalEntry}
use hscfs.Journal
use hscfs.SitNatCache.{SitNatCache}

-- A block of the tables: its entries by their index.
abbrev pub NatBlock : Type 0
NatBlock = ℕ → NatEntry

abbrev pub SitBlock : Type 0
SitBlock = ℕ → SitEntry

-- The fields of `hscfs_super_block` that the program uses.
pub record SuperBlock : Type 0 where
  pub segment_count_sit : ℕ
  pub segment_count_nat : ℕ
  pub segment0_blkaddr : ℕ
  pub sit_blkaddr : ℕ
  pub nat_blkaddr : ℕ
  pub first_free_segment_id : ℕ
  pub first_data_segment_id : ℕ
  pub first_node_segment_id : ℕ
  pub current_data_segment_id : ℕ
  pub current_data_segment_blkoff : ℕ
  pub current_node_segment_id : ℕ
  pub current_node_segment_blkoff : ℕ
  pub free_segment_count : ℕ
  pub next_free_nid : ℕ

pub record Meta : Type 0 where
  pub super : SuperBlock
  pub nat_cache : SitNatCache NatBlock
  pub sit_cache : SitNatCache SitBlock
  pub journal : JournalContainer
  pub uncommit_node_segs : List ℕ
  pub uncommit_data_segs : List ℕ

-- The offsets of the fields in the packed super block.
abbrev pub off_first_free_segment_id : ℕ
off_first_free_segment_id = 92

abbrev pub off_first_data_segment_id : ℕ
off_first_data_segment_id = 96

abbrev pub off_first_node_segment_id : ℕ
off_first_node_segment_id = 100

abbrev pub off_current_data_segment_id : ℕ
off_current_data_segment_id = 104

abbrev pub off_current_data_segment_blkoff : ℕ
off_current_data_segment_blkoff = 108

abbrev pub off_current_node_segment_id : ℕ
off_current_node_segment_id = 112

abbrev pub off_current_node_segment_blkoff : ℕ
off_current_node_segment_blkoff = 116

abbrev pub off_free_segment_count : ℕ
off_free_segment_count = 124

abbrev pub off_next_free_nid : ℕ
off_next_free_nid = 128

-- A change of a field of the super block is journalled.
abbrev pub log_super : Meta → ℕ → ℕ → Meta
log_super s off val = record s {
  journal =
      Journal.append_super_block_journal_entry s.journal (record { off = off; new_val = val });
}

-- A call on one of the caches, within the metadata.
abbrev pub on_nat :
    {A B : Type 0}
    → Meta
    → Outcome (SitNatCache NatBlock) A
    → (A × Meta → Outcome Meta B)
    → Outcome Meta B
on_nat s (done a c) f = f (a, record s { nat_cache = c })
on_nat s (thrown e c) f = thrown e (record s { nat_cache = c })
on_nat s aborted f = aborted

abbrev pub on_sit :
    {A B : Type 0}
    → Meta
    → Outcome (SitNatCache SitBlock) A
    → (A × Meta → Outcome Meta B)
    → Outcome Meta B
on_sit s (done a c) f = f (a, record s { sit_cache = c })
on_sit s (thrown e c) f = thrown e (record s { sit_cache = c })
on_sit s aborted f = aborted
