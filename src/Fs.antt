-- ===== src/Fs.antt =====
-- The structures on the SSD that the other parts share (inc/fs/fs.h) and the constants of the layout.
use hscfs.Base.{ℕ, Bool}

abbrev pub block_per_segment : ℕ
block_per_segment = 512

abbrev pub invalid_lpa : ℕ
invalid_lpa = 0

abbrev pub invalid_nid : ℕ
invalid_nid = 0

-- 4096 / sizeof(hscfs_nat_entry), with 8 bytes an entry.
abbrev pub nat_entry_per_block : ℕ
nat_entry_per_block = 512

-- 4096 / sizeof(hscfs_sit_entry), with 68 bytes an entry.
abbrev pub sit_entry_per_block : ℕ
sit_entry_per_block = 60

pub record NatEntry : Type 0 where
  pub ino : ℕ
  pub block_addr : ℕ

-- `valid_map` holds 64 bytes, each given by its bits.
pub record SitEntry : Type 0 where
  pub vblocks : ℕ
  pub valid_map : ℕ → ℕ → Bool
