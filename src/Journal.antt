-- ===== src/Journal.antt =====
-- The journal of a transaction (inc/journal/journal_type.h, inc/journal/journal_container.hh).
pub mod Writable
pub mod Merge
pub mod Output
mod Copying
pub mod Writer
pub mod Layout
pub mod Transaction
pub mod Collection
use hscfs.Base.{ℕ, List, [], ◌∷◌, ◌++◌, Bool, true, false, ◌&&◌}
use hscfs.Fs.{NatEntry, SitEntry}

pub record NatJournalEntry : Type 0 where
  pub nid : ℕ
  pub new_value : NatEntry

pub record SitJournalEntry : Type 0 where
  pub seg_id : ℕ
  pub new_value : SitEntry

pub record SuperBlockJournalEntry : Type 0 where
  pub off : ℕ
  pub new_val : ℕ

-- The values of the anonymous enumeration.
abbrev pub journal_type_nats : ℕ
journal_type_nats = 0

abbrev pub journal_type_sits : ℕ
journal_type_sits = 1

abbrev pub journal_type_super_block : ℕ
journal_type_super_block = 2

abbrev pub journal_type_nop : ℕ
journal_type_nop = 0x7e

abbrev pub journal_type_end : ℕ
journal_type_end = 0x7f

pub record JournalContainer : Type 0 where
  pub super_block_journal : List SuperBlockJournalEntry
  pub nat_journal : List NatJournalEntry
  pub sit_journal : List SitJournalEntry
  pub tx_id : ℕ

unfoldable pub append_super_block_journal_entry :
    JournalContainer → SuperBlockJournalEntry → JournalContainer
append_super_block_journal_entry j entry = record j {
  super_block_journal = j.super_block_journal ++ entry ∷ [];
}

unfoldable pub append_nat_journal_entry : JournalContainer → NatJournalEntry → JournalContainer
append_nat_journal_entry j entry = record j { nat_journal = j.nat_journal ++ entry ∷ [] }

unfoldable pub append_sit_journal_entry : JournalContainer → SitJournalEntry → JournalContainer
append_sit_journal_entry j entry = record j { sit_journal = j.sit_journal ++ entry ∷ [] }

abbrev null : {A : Type 0} → List A → Bool
null [] = true
null (x ∷ xs) = false

unfoldable pub is_empty : JournalContainer → Bool
is_empty j = null j.super_block_journal && null j.nat_journal && null j.sit_journal
